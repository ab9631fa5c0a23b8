-- ===== src/Uploads/Order.antt =====
-- services/storage-service/internal/service/storage_service.go: HandleChunkUpload, chunk by chunk.
use metaverse_rang_microserv.Common.{
  ℕ, ◌+◌, ◌<◌, ◌≡◌, refl, ap, ◌∙◌, ◌⊎◌, true, false, none, some, List, [], ◌∷◌, arith, ◌==◌, length,
  if◌then◌else◌, Bool-cases, inl, inr,
}
use metaverse_rang_microserv.Common.Table.{select, update, delete}
use metaverse_rang_microserv.Common.Table.Laws.{select-test, select-delete_self}
use metaverse_rang_microserv.Common.Server.{Server, Result, ok}
use metaverse_rang_microserv.Uploads.{
  Data, ChunkSession, Store, Error, of_upload, has_chunk, put_chunk, set_session,
  get_or_create_session, save_chunk, is_complete, remove_session, cleanup_session, or_cleanup,
  store_file, Progress, received_of, finished, finish_upload, advance, handle_chunk_upload,
}
use metaverse_rang_microserv.Uploads.Assembly.{
  concat, piece, IsPartOf, put_chunk-IsPartOf, assemble_file-concat,
}

-- the session after a chunk was saved
abbrev pub with_chunk : ℕ → Data → ChunkSession → ChunkSession
with_chunk index content c = if has_chunk index c then c else put_chunk index content c

with_chunk-IsPartOf :
    (pieces : List Data) (index : ℕ) (c : ChunkSession)
    → IsPartOf pieces c
    → index < length pieces
    → IsPartOf pieces (with_chunk index (piece index pieces) c)
with_chunk-IsPartOf pieces index c v h =
    elim (Bool-cases (has_chunk index c))
      as (λ _. IsPartOf pieces (with_chunk index (piece index pieces) c)) [
        | inl there ↦ rw there v
        | inr new ↦ rw new (put_chunk-IsPartOf pieces index c v h new)
      ]

-- the tables after a chunk was saved
abbrev pub saved_tables : ℕ → Data → ChunkSession → Store → Store
saved_tables index content c t =
    if has_chunk index c then t else set_session (put_chunk index content c) t

module _ (unique_filename : ℕ → Data → ℕ) where
  -- up to the test for completeness
  pub handle_chunk_upload-advance :
      (upload_id filename index total_chunks : ℕ) (content : Data) (c : ChunkSession)
      (s : Server Store)
      → ((n : ℕ) → s.fails n ≡ false)
      → select (of_upload upload_id) s.tables.sessions ≡ some c
      → (calls : ℕ) × (handle_chunk_upload unique_filename upload_id filename content index
            total_chunks s
          ≡ advance unique_filename
              (with_chunk index content c)
              (record s { tables = saved_tables index content c s.tables; calls = calls }))
  unfolding handle_chunk_upload get_or_create_session save_chunk
  handle_chunk_upload-advance upload_id filename index total_chunks content c s up at =
      ((if has_chunk index c then s.calls else s.calls + 1), ground (arith, up s.calls, at))

  -- a session that is complete
  finish_upload-finished :
      (pieces : List Data) (c : ChunkSession) (s : Server Store)
      → ((n : ℕ) → s.fails n ≡ false)
      → IsPartOf pieces c
      → is_complete c ≡ true
      → let name = unique_filename c.filename (concat pieces) in
        ((finish_upload unique_filename c s).0 ≡ ok (finished name))
        × ((finish_upload unique_filename c s).1.tables
            ≡ remove_session c.upload_id (store_file name (concat pieces) s.tables))
  unfolding finish_upload or_cleanup cleanup_session
  finish_upload-finished pieces c s up v full =
      let whole = assemble_file-concat pieces c s up v full in
      (
        ground (arith, whole, up (s.calls + length pieces), up (s.calls + length pieces + 1)),
        ground (arith, whole, up (s.calls + length pieces), up (s.calls + length pieces + 1)),
      )

-- an UPDATE of a session is read back
select-set :
    (upload_id : ℕ) (new c : ChunkSession) (l : List ChunkSession)
    → select (of_upload upload_id) l ≡ some c
    → (new.upload_id == upload_id) ≡ true
    → select (of_upload upload_id) (update (of_upload upload_id) (λ old. new) l) ≡ some new
unfolding select update
select-set upload_id new c [] h same = cc
select-set upload_id new c (x ∷ l) h same = ground (arith, select-set upload_id new c l)

-- the session is in the table as it is after the chunk
select-saved_tables :
    (upload_id index : ℕ) (content : Data) (c : ChunkSession) (t : Store)
    → select (of_upload upload_id) t.sessions ≡ some c
    → select (of_upload upload_id) (saved_tables index content c t).sessions
      ≡ some (with_chunk index content c)
unfolding set_session put_chunk
select-saved_tables upload_id index content c t at =
    let own = select-test (of_upload upload_id) t.sessions c at in
    let same : c.upload_id ≡ upload_id = ground (arith, own) in
    elim (Bool-cases (has_chunk index c)) [
      | inl there ↦ ground (arith, at, there)
      | inr new ↦
          ground
            (arith, new, same, select-set upload_id (put_chunk index content c) c t.sessions at own)
    ]

with_chunk-filename :
    (index : ℕ) (content : Data) (c : ChunkSession)
    → (with_chunk index content c).filename ≡ c.filename
unfolding put_chunk
with_chunk-filename index content c = ground arith

with_chunk-upload_id :
    (index : ℕ) (content : Data) (c : ChunkSession)
    → (with_chunk index content c).upload_id ≡ c.upload_id
unfolding put_chunk
with_chunk-upload_id index content c = ground arith

pub stored-saved_tables :
    (index : ℕ) (content : Data) (c : ChunkSession) (t : Store)
    → (saved_tables index content c t).stored ≡ t.stored
unfolding set_session
stored-saved_tables index content c t = ground arith

pub remove_session-none :
    (upload_id owner : ℕ) (t : Store)
    → owner ≡ upload_id
    → select (of_upload upload_id) (remove_session owner t).sessions ≡ none
unfolding remove_session
remove_session-none upload_id owner t same =
    ap (λ u. select (of_upload upload_id) (delete (of_upload u) t.sessions)) same
    ∙ select-delete_self (of_upload upload_id) t.sessions

stored-remove_session :
    (upload_id name : ℕ) (content : Data) (t : Store)
    → (remove_session upload_id (store_file name content t)).stored
      ≡ record { name = name; content = content } ∷ t.stored
unfolding remove_session store_file
stored-remove_session upload_id name content t = refl

-- What a chunk that is the last one does.
pub record Finished (upload_id name : ℕ) (pieces : List Data) (before : Store)
    (sent : Result Error Progress × Server Store) : Type 0 where
  pub answers : sent.0 ≡ ok (finished name)
  pub stored :
      sent.1.tables.stored ≡ record { name = name; content = concat pieces } ∷ before.stored
  pub gone : select (of_upload upload_id) sent.1.tables.sessions ≡ none

-- What any other chunk does, with the session as it is after it.
pub record Advanced (upload_id : ℕ) (pieces : List Data) (c : ChunkSession) (before : Store)
    (sent : Result Error Progress × Server Store) : Type 0 where
  pub answers : sent.0 ≡ ok (received_of (length c.received) (length pieces))
  pub stored : sent.1.tables.stored ≡ before.stored
  pub session : select (of_upload upload_id) sent.1.tables.sessions ≡ some c
  pub part : IsPartOf pieces c

module _ (unique_filename : ℕ → Data → ℕ) where
  pub advance-full :
      (c : ChunkSession) (s : Server Store)
      → is_complete c ≡ true
      → advance unique_filename c s ≡ finish_upload unique_filename c s
  unfolding advance
  advance-full c s full = rw full refl

  advance-part :
      (c : ChunkSession) (s : Server Store)
      → is_complete c ≡ false
      → advance unique_filename c s ≡ (ok (received_of (length c.received) c.total_chunks), s)
  unfolding advance
  advance-part c s part = rw part refl

  -- A chunk of a file is sent to a session that holds pieces of the same file, on a server where no
  -- call fails. If it is the last that was missing, the file is stored as its pieces one after the
  -- other, in whatever order the chunks came and however often, its name is answered and the session
  -- is gone; if not, how many chunks there are is answered, and the session, which holds pieces of
  -- that file, is in the table.
  pub handle_chunk_upload-assembles :
      (pieces : List Data) (upload_id filename index total_chunks : ℕ) (c : ChunkSession)
      (s : Server Store)
      → ((n : ℕ) → s.fails n ≡ false)
      → select (of_upload upload_id) s.tables.sessions ≡ some c
      → IsPartOf pieces c
      → index < length pieces
      → let c' = with_chunk index (piece index pieces) c in
        let name = unique_filename c.filename (concat pieces) in
        let sent =
          handle_chunk_upload unique_filename upload_id filename
            (piece index pieces)
            index
            total_chunks
            s in
        ((is_complete c' ≡ true) × Finished upload_id name pieces s.tables sent)
        ⊎ ((is_complete c' ≡ false) × Advanced upload_id pieces c' s.tables sent)
  handle_chunk_upload-assembles pieces upload_id filename index total_chunks c s up at v h =
      let content = piece index pieces in
      let c' = with_chunk index content c in
      let v' = with_chunk-IsPartOf pieces index c v h in
      let (calls, step) =
        handle_chunk_upload-advance unique_filename upload_id filename index total_chunks content c
          s up at in
      let saved : Server Store = record s {
        tables = saved_tables index content c s.tables;
        calls = calls;
      } in
      let same_stored = stored-saved_tables index content c s.tables in
      elim (Bool-cases (is_complete c')) [
        | inl full ↦
            let (answers, tables) =
              finish_upload-finished unique_filename pieces c' saved up v' full in
            let steps = step ∙ advance-full c' saved full in
            let names =
              ap (λ n. unique_filename n (concat pieces)) (with_chunk-filename index content c) in
            let own : c'.upload_id ≡ upload_id =
              with_chunk-upload_id index content c
              ∙ ground (arith, select-test (of_upload upload_id) s.tables.sessions c at) in
            inl (
              full,
              record {
                answers = ap (λ r. r.0) steps ∙ (answers ∙ ap (λ n. ok (finished n)) names);
                stored =
                    ap (λ r. r.1.tables.stored) steps
                    ∙ (ap (λ t. t.stored) tables
                        ∙ (stored-remove_session c'.upload_id
                              (unique_filename c'.filename (concat pieces)) (concat pieces)
                              saved.tables
                            ∙ grind (arith, names, same_stored)));
                gone =
                    ap (λ r. select (of_upload upload_id) r.1.tables.sessions) steps
                    ∙ (ap (λ t. select (of_upload upload_id) t.sessions) tables
                        ∙ remove_session-none upload_id c'.upload_id
                            (store_file (unique_filename c'.filename (concat pieces))
                              (concat pieces) saved.tables)
                            own);
              },
            )
        | inr more ↦
            let steps = step ∙ advance-part c' saved more in
            inr (
              more,
              record {
                answers =
                    ap (λ r. r.0) steps
                    ∙ ap (λ n. ok (received_of (length c'.received) n)) v'.total;
                stored = ap (λ r. r.1.tables.stored) steps ∙ same_stored;
                session =
                    ap (λ r. select (of_upload upload_id) r.1.tables.sessions) steps
                    ∙ select-saved_tables upload_id index content c s.tables at;
                part = v';
              },
            )
      ]
