-- ===== src/Features/Market/Offers/Funds.antt =====
-- What becomes of the buyer's funds when a request is sent.
use metaverse_rang_microserv.Common.{
  ℕ, ◌-◌, ◌≤◌, ◌≡◌, ap, ◌∙◌, ◌⊎◌, inl, inr, Bool, true, false, arith, if◌then◌else◌, Bool-cases,
}
use metaverse_rang_microserv.Common.Server.{Server, ok, err}
use metaverse_rang_microserv.Commercial.Wallet.{Asset, same_asset}
use metaverse_rang_microserv.Commercial.Wallet.Row.{same_asset-eq}
use metaverse_rang_microserv.Features.Client.Port.{KeepsRefused, WalletPort, is_at, is_at_self}
use metaverse_rang_microserv.Features.Market.{Market, wallet_error}
use metaverse_rang_microserv.Features.Market.BuyRequests.Release.{holds}
use metaverse_rang_microserv.Features.Market.Offers.{deduct_both}

psc_is_not_irr : (u v : ℕ) → is_at u Asset.psc v Asset.irr ≡ false
unfolding is_at same_asset
psc_is_not_irr u v = ground arith

-- where a balance is moved, it is that of the user and the asset
is_at_eq :
    (u : ℕ) (a : Asset) (v : ℕ) (b : Asset) (f : ℕ → Asset → ℕ)
    → is_at u a v b ≡ true
    → f v b ≡ f u a
unfolding is_at
is_at_eq u a v b f e = ground (arith, same_asset-eq a b)

module _ {W : Type 0} (port : WalletPort W) where
  -- both amounts are taken from `u`, who had them, and no other balance moves
  abbrev pub Charged : ℕ → ℕ → ℕ → Market W → Market W → Type 0
  Charged u psc irr t t' =
      (v : ℕ) (b : Asset)
      → holds port v b t' ≡ (
          if is_at u Asset.irr v b
          then (if is_at u Asset.psc v b then holds port v b t - psc else holds port v b t) - irr
          else if is_at u Asset.psc v b
          then holds port v b t - psc
          else holds port v b t)

  module _ (u psc irr : ℕ) (s : Server (Market W)) where
    abbrev pub first : Bool × W
    first = port.deduct_balance u Asset.psc psc s.tables.wallets

    abbrev pub second : Bool × W
    second = port.deduct_balance u Asset.irr irr first.1

    abbrev pub back : Bool × W
    back = port.add_balance u Asset.psc psc second.1

    deduct_both_cases :
        (((first.0 ≡ true)
          × (second.0 ≡ true)
          × ((deduct_both port u psc irr s).0 ≡ ok tt)
          × ((deduct_both port u psc irr s).1.tables ≡ record s.tables { wallets = second.1 })))
        ⊎ (((first.0 ≡ false)
              × ((deduct_both port u psc irr s).0 ≡ err wallet_error)
              × ((deduct_both port u psc irr s).1.tables ≡ record s.tables { wallets = first.1 }))
            ⊎ ((first.0 ≡ true)
                × (second.0 ≡ false)
                × ((deduct_both port u psc irr s).0 ≡ err wallet_error)
                × ((deduct_both port u psc irr s).1.tables ≡ record s.tables { wallets = back.1 })))
    unfolding deduct_both
    deduct_both_cases = ground (arith, Bool-cases first.0, Bool-cases second.0)

    charged :
        first.0 ≡ true
        → second.0 ≡ true
        → (v : ℕ) (b : Asset)
        → port.funds v b second.1 ≡ (
            if is_at u Asset.irr v b
            then (if is_at u Asset.psc v b
                then holds port v b s.tables - psc
                else holds port v b s.tables)
              - irr
            else if is_at u Asset.psc v b
            then holds port v b s.tables - psc
            else holds port v b s.tables)
    charged p q v b = ground (
      arith,
      port.deduct_moves u Asset.psc psc s.tables.wallets v b,
      port.deduct_moves u Asset.irr irr first.1 v b,
    )

    charged_irr : first.0 ≡ true → second.0 ≡ true → irr ≤ holds port u Asset.irr s.tables
    charged_irr p q = ground (
      arith,
      port.deduct_moves u Asset.psc psc s.tables.wallets u Asset.irr,
      port.deduct_enough u Asset.irr irr first.1,
      psc_is_not_irr u u,
    )

    put_back :
        KeepsRefused port
        → first.0 ≡ true
        → second.0 ≡ false
        → back.0 ≡ true
        → (v : ℕ) (b : Asset) → port.funds v b back.1 ≡ holds port v b s.tables
    put_back keeps p q put v b = ground (
      arith,
      port.deduct_enough u Asset.psc psc s.tables.wallets,
      port.deduct_moves u Asset.psc psc s.tables.wallets v b,
      keeps.deduct_refused u Asset.irr irr first.1 v b,
      port.add_moves u Asset.psc psc second.1 v b,
      is_at_eq u Asset.psc v b (λ w c. port.funds w c s.tables.wallets),
    )

    not_put_back :
        KeepsRefused port
        → first.0 ≡ true
        → second.0 ≡ false
        → back.0 ≡ false
        → port.funds u Asset.psc back.1 ≡ holds port u Asset.psc s.tables - psc
    not_put_back keeps p q lost = ground (
      arith,
      port.deduct_moves u Asset.psc psc s.tables.wallets u Asset.psc,
      keeps.deduct_refused u Asset.irr irr first.1 u Asset.psc,
      keeps.add_refused u Asset.psc psc second.1 u Asset.psc,
      is_at_self u Asset.psc,
    )

  -- On wallets where a call that errs has moved nothing, the buyer's funds are charged as a whole or
  -- not at all, whatever the calls answer, but for one case: the rial is refused and putting the PSC
  -- back fails too.
  pub deduct_both-Charged :
      KeepsRefused port
      → (u psc irr : ℕ) (s : Server (Market W))
      → let (result, s') = deduct_both port u psc irr s in
        ((result ≡ ok tt)
          × (psc ≤ holds port u Asset.psc s.tables)
          × (irr ≤ holds port u Asset.irr s.tables)
          × Charged u psc irr s.tables s'.tables)
        ⊎ (((result ≡ err wallet_error)
              × ((v : ℕ) (b : Asset) → holds port v b s'.tables ≡ holds port v b s.tables))
            ⊎ ((result ≡ err wallet_error)
                × ((back u psc irr s).0 ≡ false)
                × (holds port u Asset.psc s'.tables ≡ holds port u Asset.psc s.tables - psc)))
  deduct_both-Charged keeps u psc irr s = elim (deduct_both_cases u psc irr s) [
    | inl (p, q, done, same) ↦ inl (
      done,
      port.deduct_enough u Asset.psc psc s.tables.wallets p,
      charged_irr u psc irr s p q,
      (λ v b. ap (λ t. holds port v b t) same ∙ charged u psc irr s p q v b),
    )
    | inr (inl (p, refused, same)) ↦ inr (
        inl (
          refused,
          (λ v b.
              ap (λ t. holds port v b t) same
              ∙ keeps.deduct_refused u Asset.psc psc s.tables.wallets v b p),
        ))
    | inr (inr (p, q, refused, same)) ↦ elim (Bool-cases (back u psc irr s).0) [
      | inl put ↦ inr (
          inl (
            refused,
            (λ v b. ap (λ t. holds port v b t) same ∙ put_back u psc irr s keeps p q put v b),
          ))
      | inr lost ↦ inr (
          inr (
            refused,
            lost,
            ap (λ t. holds port u Asset.psc t) same ∙ not_put_back u psc irr s keeps p q lost,
          ))
    ]
  ]
