-- ===== src/Uploads.antt =====
-- services/storage-service/internal/service: chunk_manager.go and HandleChunkUpload of
-- storage_service.go. The sessions are the table of the manager, a session's chunk files are a part
-- of it; texts and upload ids are numbers, an index and a number of chunks are not negative. Paths,
-- content types, the clock and the hourly clean-up of old sessions are left out; the name of a
-- file, its MD5 sum and extension, is the parameter `unique_filename`.
pub mod Pigeonhole
pub mod Assembly
pub mod Order
pub mod Misplaced
mod Tests
use metaverse_rang_microserv.Common.{
  ℕ, zero, suc, ◌+◌, Bool, true, false, not, Option, none, some, List, [], ◌∷◌, ◌++◌, ◌==◌, length,
  if◌then◌else◌,
}
use metaverse_rang_microserv.Common.Table.{select, count, update, delete}
use metaverse_rang_microserv.Common.Server.{
  Server, Result, Action, ok, err, pure, raise, or_raise, query, exec, ◌>>=◌, ◌>>◌,
}

-- the bytes of a chunk
abbrev pub Data : Type 0
Data = List ℕ

-- the file `chunk_<index>` of a session
pub record Chunk : Type 0 where
  pub index : ℕ
  pub content : Data

pub record ChunkSession : Type 0 where
  pub upload_id : ℕ
  pub filename : ℕ
  pub total_chunks : ℕ
  pub received : List ℕ
  pub chunks : List Chunk

pub record StoredFile : Type 0 where
  pub name : ℕ
  pub content : Data

pub record Store : Type 0 where
  pub sessions : List ChunkSession
  pub stored : List StoredFile

pub data Error : Type 0 where
  session_error save_error assemble_error store_error : Error

abbrev pub StoreAction : Type 0 → Type 0
StoreAction = Action Store Error

abbrev pub of_upload : ℕ → ChunkSession → Bool
of_upload upload_id c = c.upload_id == upload_id

abbrev pub of_index : ℕ → Chunk → Bool
of_index index c = c.index == index

unfoldable pub new_session : ℕ → ℕ → ℕ → ChunkSession
new_session upload_id filename total_chunks = record {
  upload_id = upload_id;
  filename = filename;
  total_chunks = total_chunks;
  received = [];
  chunks = [];
}

unfoldable pub add_session : ChunkSession → Store → Store
add_session c t = record t { sessions = t.sessions ++ (c ∷ []) }

unfoldable pub create_session : ChunkSession → StoreAction ChunkSession
create_session c = do exec session_error (add_session c); pure c

unfoldable pub get_or_create_session : ℕ → ℕ → ℕ → StoreAction ChunkSession
unfolding create_session new_session
get_or_create_session upload_id filename total_chunks s =
    elim (select (of_upload upload_id) s.tables.sessions) [
      | none ↦ create_session (new_session upload_id filename total_chunks) s
      | some c ↦ (ok c, s)
    ]

unfoldable pub has_chunk : ℕ → ChunkSession → Bool
has_chunk index c = not (count (λ i. i == index) c.received == 0)

unfoldable pub put_chunk : ℕ → Data → ChunkSession → ChunkSession
put_chunk index content c = record c {
  received = c.received ++ (index ∷ []);
  chunks = c.chunks ++ (record { index = index; content = content } ∷ []);
}

unfoldable pub set_session : ChunkSession → Store → Store
set_session c t = record t { sessions = update (of_upload c.upload_id) (λ old. c) t.sessions }

-- `SaveChunk`, with the session as it is after it
unfoldable pub save_chunk : ChunkSession → ℕ → Data → StoreAction ChunkSession
unfolding put_chunk
save_chunk c index content =
    if has_chunk index c
    then pure c
    else (exec save_error (set_session (put_chunk index content c))
        >> pure (put_chunk index content c))

unfoldable pub is_complete : ChunkSession → Bool
is_complete c = length c.received == c.total_chunks

-- the loop of `AssembleFile`, with `left` chunks to read from `index` on
unfoldable pub assemble_from : ℕ → ℕ → ChunkSession → StoreAction Data
assemble_from zero index c = pure []
assemble_from (suc left) index c = do
  chunk ← query assemble_error (λ t. select (of_index index) c.chunks)
  found ← or_raise chunk assemble_error
  rest ← assemble_from left (index + 1) c
  pure (found.content ++ rest)

unfoldable pub assemble_file : ChunkSession → StoreAction Data
unfolding assemble_from
assemble_file c = assemble_from c.total_chunks 0 c

unfoldable pub remove_session : ℕ → Store → Store
remove_session upload_id t = record t { sessions = delete (of_upload upload_id) t.sessions }

-- `CleanupSession`, before an error is answered and before the answer
unfoldable pub cleanup_session : ℕ → StoreAction (Unit {0})
cleanup_session upload_id s = (ok tt, record s { tables = remove_session upload_id s.tables })

unfoldable pub or_cleanup : {A : Type 0} → ℕ → StoreAction A → StoreAction A
or_cleanup upload_id m s =
    let (r, s') = m s in
    elim r [
      | ok a ↦ (ok a, s')
      | err e ↦ (err e, record s' { tables = remove_session upload_id s'.tables })
    ]

unfoldable pub store_file : ℕ → Data → Store → Store
store_file name content t = record t {
  stored = record { name = name; content = content } ∷ t.stored;
}

-- what `HandleChunkUpload` answers: chunks received of all, or the name of the file
pub data Progress : Type 0 where
  received_of : ℕ → ℕ → Progress
  finished : ℕ → Progress

module _ (unique_filename : ℕ → Data → ℕ) where
  unfoldable pub finish_upload : ChunkSession → StoreAction Progress
  unfolding assemble_file or_cleanup cleanup_session
  finish_upload c = do
    content ← or_cleanup c.upload_id (assemble_file c)
    or_cleanup c.upload_id (
        exec store_error (λ t. t)
        >> exec store_error (store_file (unique_filename c.filename content) content))
    cleanup_session c.upload_id
    pure (finished (unique_filename c.filename content))

  -- after a chunk is saved
  unfoldable pub advance : ChunkSession → StoreAction Progress
  unfolding finish_upload is_complete
  advance c =
      if is_complete c
      then finish_upload c
      else pure (received_of (length c.received) c.total_chunks)

  unfoldable pub handle_chunk_upload : ℕ → ℕ → Data → ℕ → ℕ → StoreAction Progress
  unfolding get_or_create_session save_chunk advance
  handle_chunk_upload upload_id filename content index total_chunks = do
    session ← get_or_create_session upload_id filename total_chunks
    saved ← save_chunk session index content
    advance saved
