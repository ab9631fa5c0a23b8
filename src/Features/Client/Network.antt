-- ===== src/Features/Client/Network.antt =====
-- A wallet port behind a network that loses requests, and no replies, is a wallet port again: what the
-- marketplace asks of the wallets survives the retries.
use metaverse_rang_microserv.Common.{
  ℕ, ◌+◌, ◌-◌, ◌≡◌, refl, ◌≢◌, Bool, true, false, inl, inr, if◌then◌else◌,
}
use metaverse_rang_microserv.Features.Client.{Delivery, Link, call_wallet}
use metaverse_rang_microserv.Features.Client.Retry.{call_wallet_once}
use metaverse_rang_microserv.Features.Client.Port.{KeepsRefused, WalletPort, is_at}

-- the far end, and the number of the next attempt
pub record Channel (W : Type 0) : Type 0 where
  pub remote : W
  pub sends : ℕ

module _ {W : Type 0} (delivery : ℕ → Delivery) (n : ℕ) where
  abbrev pub link : Channel W → Link W
  link c = record { remote = c.remote; delivery = delivery; sends = c.sends }

  -- `AddBalance` and `DeductBalance` with `n` attempts
  unfoldable pub send : (W → Bool × W) → Channel W → Bool × Channel W
  send call c =
      let (r, l) = call_wallet n call (link c) in (r, record { remote = l.remote; sends = l.sends })

  module _ (kept : (i : ℕ) → delivery i ≢ Delivery.reply_lost) (call : W → Bool × W)
      (c : Channel W) where
    -- What holds of the far end after a call that succeeds, or that is refused, or that is not made.
    pub send_true :
        (P : W → Type 0)
        → (send call c).0 ≡ true
        → (((call c.remote).0 ≡ true) → P (call c.remote).1)
        → P (send call c).1.remote
    unfolding send
    send_true P h made = elim (call_wallet_once call n (link c) kept) [
      | inl (_, good, same) ↦ rw same (made good)
      | inr (inl (bad, _, _)) ↦ cc
      | inr (inr (bad, _)) ↦ cc
    ]

    pub send_good : (send call c).0 ≡ true → (call c.remote).0 ≡ true
    unfolding send
    send_good h = elim (call_wallet_once call n (link c) kept) [
      | inl (_, good, same) ↦ good
      | inr (inl (bad, _, _)) ↦ cc
      | inr (inr (bad, _)) ↦ cc
    ]

    pub send_false :
        (P : W → Type 0)
        → (send call c).0 ≡ false
        → (((call c.remote).0 ≡ false) → P (call c.remote).1)
        → P c.remote
        → P (send call c).1.remote
    unfolding send
    send_false P h made unmade = elim (call_wallet_once call n (link c) kept) [
      | inl (good, _, _) ↦ cc
      | inr (inl (_, bad, same)) ↦ rw same (made bad)
      | inr (inr (_, same)) ↦ rw same unmade
    ]

  module _ (kept : (i : ℕ) → delivery i ≢ Delivery.reply_lost) (port : WalletPort W) where
    -- The port of the client over the network. `GetWallet` changes nothing, so it is taken as read.
    unfoldable pub network_port : WalletPort (Channel W)
    network_port = record {
      deduct_balance = λ u a x. send (port.deduct_balance u a x);
      add_balance = λ u a x. send (port.add_balance u a x);
      get_wallet = λ u a c.
          let (r, w) = port.get_wallet u a c.remote in (r, record { remote = w; sends = c.sends });
      funds = λ u a c. port.funds u a c.remote;
      deduct_enough = λ u a x c h.
          port.deduct_enough u a x c.remote (send_good kept (port.deduct_balance u a x) c h);
      deduct_moves = λ u a x c v b h.
          send_true kept (port.deduct_balance u a x) c
            (λ w.
              port.funds v b w
              ≡ (if is_at u a v b then port.funds v b c.remote - x else port.funds v b c.remote))
            h (port.deduct_moves u a x c.remote v b);
      add_moves = λ u a x c v b h.
          send_true kept (port.add_balance u a x) c
            (λ w.
              port.funds v b w
              ≡ (if is_at u a v b then port.funds v b c.remote + x else port.funds v b c.remote))
            h (port.add_moves u a x c.remote v b);
      get_keeps = λ u a c v b. port.get_keeps u a c.remote v b;
    }

    -- where no reply is lost, the network keeps that a call that errs has moved nothing
    network_port-KeepsRefused : KeepsRefused port → KeepsRefused network_port
    unfolding network_port
    network_port-KeepsRefused keeps = record {
      deduct_refused = λ u a x c v b h.
          send_false kept (port.deduct_balance u a x) c
            (λ w. port.funds v b w ≡ port.funds v b c.remote) h
            (keeps.deduct_refused u a x c.remote v b) refl;
      add_refused = λ u a x c v b h.
          send_false kept (port.add_balance u a x) c
            (λ w. port.funds v b w ≡ port.funds v b c.remote) h
            (keeps.add_refused u a x c.remote v b) refl;
    }
