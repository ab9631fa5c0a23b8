-- ===== src/Uploads/Tests.antt =====
-- Uploads at concrete inputs.
use metaverse_rang_microserv.Common.{
  ℕ, ◌+◌, ◌<◌, ◌≡◌, ◌⊎◌, refl, true, false, none, some, List, [], ◌∷◌, arith, length,
}
use metaverse_rang_microserv.Common.Table.{select, count}
use metaverse_rang_microserv.Common.Server.{Server, is_ok}
use metaverse_rang_microserv.Uploads.{
  Data, ChunkSession, Store, of_upload, of_index, has_chunk, put_chunk, new_session, is_complete,
  handle_chunk_upload,
}
use metaverse_rang_microserv.Uploads.Assembly.{
  concat, piece, IsPartOf, new_session-IsPartOf, put_chunk-IsPartOf,
}
use metaverse_rang_microserv.Uploads.Order.{
  with_chunk, Finished, Advanced, handle_chunk_upload-assembles,
}
use metaverse_rang_microserv.Uploads.Misplaced.{handle_chunk_upload_misplaced}

-- a file of two pieces, whose second piece came first
abbrev pieces : List Data
pieces = (7 ∷ 8 ∷ []) ∷ (9 ∷ []) ∷ []

abbrev half : ChunkSession
half = put_chunk 1 (piece 1 pieces) (new_session 30 4 (length pieces))

abbrev tables : Store
tables = record { sessions = half ∷ []; stored = [] }

abbrev up : Server Store
up = record { tables = tables; fails = λ n. false; calls = 0 }

abbrev upload : ℕ
upload = 30

abbrev first_index : ℕ
first_index = 0

abbrev wrong_index : ℕ
wrong_index = 5

-- the name of a file in this test
abbrev sum_name : ℕ → Data → ℕ
sum_name filename content = length content

at : select (of_upload upload) tables.sessions ≡ some half
unfolding select put_chunk new_session
at = refl

not_second : has_chunk 1 (new_session 30 4 (length pieces)) ≡ false
unfolding has_chunk new_session count
not_second = refl

half-IsPartOf : IsPartOf pieces half
half-IsPartOf =
    put_chunk-IsPartOf pieces 1 (new_session 30 4 (length pieces))
      (new_session-IsPartOf pieces 30 4) (omega arith) not_second

handle_chunk_upload-assembles_example :
    let c' = with_chunk first_index (piece first_index pieces) half in
    let name = sum_name half.filename (concat pieces) in
    let sent = handle_chunk_upload sum_name upload 4 (piece first_index pieces) first_index 2 up in
    ((is_complete c' ≡ true) × Finished upload name pieces tables sent)
    ⊎ ((is_complete c' ≡ false) × Advanced upload pieces c' tables sent)
handle_chunk_upload-assembles_example =
    handle_chunk_upload-assembles sum_name pieces upload 4 first_index 2 half up (λ n. refl) at
      half-IsPartOf (omega arith)

no_first : select (of_index first_index) half.chunks ≡ none
unfolding select put_chunk new_session
no_first = refl

no_wrong : has_chunk wrong_index half ≡ false
unfolding has_chunk put_chunk new_session count
no_wrong = refl

one_left : length half.received + 1 ≡ half.total_chunks
unfolding put_chunk new_session
one_left = refl

first_in : first_index < half.total_chunks
unfolding put_chunk new_session
first_in = omega arith

handle_chunk_upload_misplaced_example :
    let sent = handle_chunk_upload sum_name upload 4 (6 ∷ []) wrong_index 2 up in
    (is_ok sent.0 ≡ false)
    × ((sent.1.tables.stored ≡ tables.stored)
        × (select (of_upload upload) sent.1.tables.sessions ≡ none))
handle_chunk_upload_misplaced_example =
    handle_chunk_upload_misplaced sum_name upload 4 wrong_index 2 first_index (6 ∷ []) half up
      (λ n. refl) at one_left first_in no_first no_wrong (omega arith)
