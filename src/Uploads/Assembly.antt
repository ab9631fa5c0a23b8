-- ===== src/Uploads/Assembly.antt =====
-- services/storage-service/internal/service/chunk_manager.go: the file that the chunks make up.
use metaverse_rang_microserv.Common.{
  ℕ, zero, suc, ◌+◌, ◌≤◌, ◌<◌, ◌≡◌, refl, ap, ◌∙◌, true, false, none, some, List, [], ◌∷◌, ◌++◌,
  arith, ◌==◌, length, if◌then◌else◌,
}
use metaverse_rang_microserv.Common.Table.{select, count}
use metaverse_rang_microserv.Common.Table.Laws.{select-append, count-append, count_single}
use metaverse_rang_microserv.Common.Server.{Server, ok}
use metaverse_rang_microserv.Uploads.{
  Data, Chunk, ChunkSession, Store, of_index, has_chunk, put_chunk, is_complete, assemble_from,
  assemble_file, new_session,
}
use metaverse_rang_microserv.Uploads.Pigeonhole.{pigeonhole}

-- the pieces of a file, one after the other, and the piece with an index
unfoldable pub concat : List Data → Data
concat [] = []
concat (p ∷ pieces) = p ++ concat pieces

unfoldable pub piece : ℕ → List Data → Data
piece i [] = []
piece zero (p ∷ pieces) = p
piece (suc i) (p ∷ pieces) = piece i pieces

abbrev pub chunk_of : ℕ → List Data → Chunk
chunk_of i pieces = record { index = i; content = piece i pieces }

-- A session that holds some of the pieces of one file, each under its index.
pub record IsPartOf (pieces : List Data) (c : ChunkSession) : Type 0 where
  pub total : c.total_chunks ≡ length pieces
  pub once : (i : ℕ) → count (λ j. j == i) c.received ≤ 1
  pub below : (i : ℕ) → length pieces ≤ i → count (λ j. j == i) c.received ≡ 0
  pub held :
      (i : ℕ)
      → select (of_index i) c.chunks
        ≡ (if count (λ j. j == i) c.received == 0 then none else some (chunk_of i pieces))

pub new_session-IsPartOf :
    (pieces : List Data) (upload_id filename : ℕ)
    → IsPartOf pieces (new_session upload_id filename (length pieces))
unfolding new_session select count
new_session-IsPartOf pieces upload_id filename = record {
  total = refl;
  once = λ i. ground arith;
  below = λ i h. refl;
  held = λ i. refl;
}

pub put_chunk-IsPartOf :
    (pieces : List Data) (index : ℕ) (c : ChunkSession)
    → IsPartOf pieces c
    → index < length pieces
    → has_chunk index c ≡ false
    → IsPartOf pieces (put_chunk index (piece index pieces) c)
unfolding put_chunk has_chunk select
put_chunk-IsPartOf pieces index c v h new = record {
  total = v.total;
  once = λ i. ground (
    arith,
    v.once i,
    count-append (λ j. j == i) c.received (index ∷ []),
    count_single (λ j. j == i) index,
  );
  below = λ i b. ground (
    arith,
    v.below i b,
    count-append (λ j. j == i) c.received (index ∷ []),
    count_single (λ j. j == i) index,
  );
  held = λ i. ground (
    arith,
    v.held i,
    v.held index,
    count-append (λ j. j == i) c.received (index ∷ []),
    count_single (λ j. j == i) index,
    select-append (of_index i) c.chunks (chunk_of index pieces ∷ []),
  );
}

assemble_from-concat :
    (rest : List Data) (index : ℕ) (c : ChunkSession) (s : Server Store)
    → ((n : ℕ) → s.fails n ≡ false)
    → ((k i : ℕ)
        → i ≡ index + k
        → k < length rest
        → select (of_index i) c.chunks ≡ some (record { index = i; content = piece k rest }))
    → assemble_from (length rest) index c s
      ≡ (ok (concat rest), record s { calls = s.calls + length rest })
unfolding assemble_from concat piece
assemble_from-concat [] index c s up at = ground arith
assemble_from-concat (p ∷ rest) index c s up at = ground (
  arith,
  up s.calls,
  at 0 index (omega arith) (omega arith),
  assemble_from-concat rest (index + 1) c (record s { calls = s.calls + 1 }) up
      (λ k i e h. at (suc k) i (omega (arith, e)) (omega (arith, h))),
)

-- A session that has as many chunks as its file has pieces holds all of them, and assembling it, on
-- a server where no call fails, gives the pieces one after the other, in whatever order they came.
pub assemble_file-concat :
    (pieces : List Data) (c : ChunkSession) (s : Server Store)
    → ((n : ℕ) → s.fails n ≡ false)
    → IsPartOf pieces c
    → is_complete c ≡ true
    → assemble_file c s ≡ (ok (concat pieces), record s { calls = s.calls + length pieces })
unfolding assemble_file is_complete
assemble_file-concat pieces c s up v full =
    let all : (i : ℕ) → i < length pieces → count (λ j. j == i) c.received ≡ 1 =
      pigeonhole (length pieces) c.received v.once v.below (ground (arith, full, v.total)) in
    ap (λ n. assemble_from n 0 c s) v.total
    ∙ assemble_from-concat pieces 0 c s up
        (λ k i e h. ground (arith, e, v.held i, all i (omega (arith, e, h))))
