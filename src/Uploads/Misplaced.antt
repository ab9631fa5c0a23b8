-- ===== src/Uploads/Misplaced.antt =====
-- services/storage-service/internal/service: a chunk whose index the file does not have.
use metaverse_rang_microserv.Common.{
  ℕ, zero, suc, ◌+◌, ◌≤◌, ◌<◌, ◌≡◌, ◌≢◌, refl, ap, ◌∙◌, true, false, none, some, [], ◌∷◌, arith,
  ◌==◌, length, length-append, Bool-cases, inl, inr,
}
use metaverse_rang_microserv.Common.Table.{select}
use metaverse_rang_microserv.Common.Table.Laws.{select-append, select-test}
use metaverse_rang_microserv.Common.Server.{Server, is_ok}
use metaverse_rang_microserv.Uploads.{
  Data, ChunkSession, Store, of_upload, of_index, has_chunk, put_chunk, is_complete, assemble_from,
  assemble_file, remove_session, or_cleanup, finish_upload, advance, handle_chunk_upload,
}
use metaverse_rang_microserv.Uploads.Order.{
  with_chunk, saved_tables, handle_chunk_upload-advance, advance-full, stored-saved_tables,
  remove_session-none,
}

stored-remove : (upload_id : ℕ) (t : Store) → (remove_session upload_id t).stored ≡ t.stored
unfolding remove_session
stored-remove upload_id t = refl

-- a chunk that is not there makes the assembly err, whichever calls fail
assemble_from-missing :
    (left index m : ℕ) (c : ChunkSession) (s : Server Store)
    → index ≤ m
    → m < index + left
    → select (of_index m) c.chunks ≡ none
    → (is_ok (assemble_from left index c s).0 ≡ false)
      × ((assemble_from left index c s).1.tables ≡ s.tables)
unfolding assemble_from
assemble_from-missing zero index m c s lo hi gone = absurd (omega (arith, lo, hi))
assemble_from-missing (suc left) index m c s lo hi gone = elim (Bool-cases (index == m)) [
  | inl here ↦
      let none_here : select (of_index index) c.chunks ≡ none =
        ap (λ i. select (of_index i) c.chunks) (ground (arith, here)) ∙ gone in
      (ground (arith, none_here), ground (arith, none_here))
  | inr later ↦
      let (errs, kept) =
        assemble_from-missing left (index + 1) m c (record s { calls = s.calls + 1 })
          (ground (arith, later)) (omega (arith, hi)) gone in
      (ground (arith, errs), ground (arith, kept))
]

finish_upload-missing :
    (unique_filename : ℕ → Data → ℕ) (m : ℕ) (c : ChunkSession) (s : Server Store)
    → m < c.total_chunks
    → select (of_index m) c.chunks ≡ none
    → (is_ok (finish_upload unique_filename c s).0 ≡ false)
      × ((finish_upload unique_filename c s).1.tables ≡ remove_session c.upload_id s.tables)
unfolding finish_upload assemble_file or_cleanup
finish_upload-missing unique_filename m c s lo gone =
    let (errs, kept) =
      assemble_from-missing c.total_chunks 0 m c s (omega arith) (omega (arith, lo)) gone in
    (ground (arith, errs, kept), ground (arith, errs, kept))

put_chunk-full :
    (index : ℕ) (content : Data) (c : ChunkSession)
    → length c.received + 1 ≡ c.total_chunks
    → is_complete (put_chunk index content c) ≡ true
unfolding is_complete put_chunk
put_chunk-full index content c one = ground (arith, one, length-append c.received (index ∷ []))

put_chunk-missing :
    (index m : ℕ) (content : Data) (c : ChunkSession)
    → select (of_index m) c.chunks ≡ none
    → index ≢ m
    → select (of_index m) (put_chunk index content c).chunks ≡ none
unfolding put_chunk select
put_chunk-missing index m content c gone other = ground (
  arith,
  gone,
  other,
  select-append (of_index m) c.chunks (record { index = index; content = content } ∷ []),
)

put_chunk-own :
    (index : ℕ) (content : Data) (c : ChunkSession)
    → ((put_chunk index content c).upload_id ≡ c.upload_id)
      × ((put_chunk index content c).total_chunks ≡ c.total_chunks)
unfolding put_chunk
put_chunk-own index content c = (refl, refl)

-- A session lacks one chunk, whose index is `m`, and a chunk that it does not have comes with
-- another index, such as one past the end: the session then counts as complete, the upload errs,
-- nothing is stored, and every chunk that was sent is lost with the session, on a server where no
-- call fails.
pub handle_chunk_upload_misplaced :
    (unique_filename : ℕ → Data → ℕ) (upload_id filename index total_chunks m : ℕ) (content : Data)
    (c : ChunkSession) (s : Server Store)
    → ((n : ℕ) → s.fails n ≡ false)
    → select (of_upload upload_id) s.tables.sessions ≡ some c
    → length c.received + 1 ≡ c.total_chunks
    → m < c.total_chunks
    → select (of_index m) c.chunks ≡ none
    → has_chunk index c ≡ false
    → index ≢ m
    → let sent =
        handle_chunk_upload unique_filename upload_id filename content index total_chunks s in
      (is_ok sent.0 ≡ false)
      × ((sent.1.tables.stored ≡ s.tables.stored)
          × (select (of_upload upload_id) sent.1.tables.sessions ≡ none))
handle_chunk_upload_misplaced unique_filename upload_id filename index total_chunks m content c s up
      at one lo gone new other =
    let c' = put_chunk index content c in
    let (calls, step) =
      handle_chunk_upload-advance unique_filename upload_id filename index total_chunks content c s
        up at in
    let saved : Server Store = record s {
      tables = saved_tables index content c s.tables;
      calls = calls;
    } in
    let is_new : with_chunk index content c ≡ c' = rw new refl in
    let (same_id, same_total) = put_chunk-own index content c in
    let own : c'.upload_id ≡ upload_id =
      same_id ∙ ground (arith, select-test (of_upload upload_id) s.tables.sessions c at) in
    let (errs, kept) =
      finish_upload-missing unique_filename m c' saved (omega (arith, lo, same_total))
        (put_chunk-missing index m content c gone other) in
    let steps =
      step
      ∙ (ap (λ d. advance unique_filename d saved) is_new
          ∙ advance-full unique_filename c' saved (put_chunk-full index content c one)) in
    (
      ap (λ r. is_ok r.0) steps ∙ errs,
      (
        ap (λ r. r.1.tables.stored) steps
            ∙ (ap (λ t. t.stored) kept
                ∙ (stored-remove c'.upload_id saved.tables
                    ∙ stored-saved_tables index content c s.tables)),
        ap (λ r. select (of_upload upload_id) r.1.tables.sessions) steps
            ∙ (ap (λ t. select (of_upload upload_id) t.sessions) kept
                ∙ remove_session-none upload_id c'.upload_id saved.tables own),
      ),
    )
