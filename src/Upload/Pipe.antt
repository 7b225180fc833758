-- ===== src/Upload/Pipe.antt =====
-- A streamed upload as a whole: the writer of src/upload_writer.rs, tokio's bounded channel, the task
-- of `start_upload` of src/s3_client.rs and the handle of src/upload_handle.rs, interleaved in any
-- order. One call of the writer is one step, but the chunks that it counts become visible to the task
-- in steps of their own, at any later time, and it may find the channel closed by a task that ends
-- during the call.
pub mod Parked
pub mod Invariant
pub mod Steps
pub mod Safety
pub mod Waiting
pub mod Between
mod Tests
use my_s.Base.{
  ℕ, ◌+◌, ◌<◌, ◌≡◌, Bool, true, false, List, [], ◌∷◌, ◌++◌, none, Bytes, joined, Result, ok, err,
  zero, suc,
}
use my_s.Error.{S3Error}
use my_s.Upload.State.{mark_upload_ended}
use my_s.Upload.Writer.{
  S3UploadWriter, Reserve, full, room, closed, Answers, new, dropped, poll_pending,
}
use my_s.Upload.Run.{Call, write, flush, shutdown, step, taken}
use my_s.Upload.Handle.{upload_task}

-- `UPLOAD_CHANNEL_CAPACITY`.
abbrev pub upload_channel_capacity : ℕ
upload_channel_capacity = 4

-- The upload's task: it waits for `body_started`, streams the body, and comes to a result, or is
-- aborted by the handle that is dropped.
pub data Task (E : Type 0) : Type 0 where
  held_back : Task E
  streaming : Task E
  ended : Result (Unit {0}) (S3Error E) → Task E
  aborted : Task E

-- The task owns the receiver, and drops it when it ends.
unfoldable pub is_open : {E : Type 0} → Task E → Bool
is_open held_back = true
is_open streaming = true
is_open (ended result) = false
is_open aborted = false

pub record System (E : Type 0) : Type 0 where
  -- With the shared state, and with the chunks that the channel has taken.
  pub writer : S3UploadWriter
  -- The writer has not been dropped.
  pub alive : Bool
  -- How many of the chunks the request can see: a send counts its bytes first, and hands its chunk
  -- over afterwards.
  pub visible : ℕ
  -- How many of the chunks the request has received.
  pub received : ℕ
  pub task : Task E
  -- What the writer has reported as written.
  pub written : Bytes

abbrev pub count : List Bytes → ℕ
count [] = 0
count (c ∷ cs) = suc (count cs)

abbrev pub first : ℕ → List Bytes → List Bytes
first zero cs = []
first (suc n) [] = []
first (suc n) (c ∷ cs) = c ∷ first n cs

-- What a `reserve` may be answered, with `chunks` taken so far: a permit while the receiver is there
-- and fewer than the capacity wait, `closed` once it is gone, and `full` at any time.
abbrev pub MayAnswer : {E : Type 0} → System E → List Bytes → Reserve → Type 0
MayAnswer s chunks full = Unit {0}
MayAnswer s chunks room =
    (is_open s.task ≡ true) × (count chunks < s.received + upload_channel_capacity)
MayAnswer s chunks closed = is_open s.task ≡ false

-- The same during a call: the task may end, and drop the receiver, after the call has begun, which is
-- a step of its own behind the call. What the task or the handle do between the two sends of a call
-- is what they do between a call with an empty buffer and that call.
abbrev pub MayMeet : {E : Type 0} → System E → List Bytes → Reserve → Type 0
MayMeet s chunks full = Unit {0}
MayMeet s chunks room = MayAnswer s chunks room
MayMeet s chunks closed = Unit {0}

abbrev pub MayAnswers : {E : Type 0} → System E → Answers → Type 0
MayAnswers {E} s answers =
    MayMeet s s.writer.body answers.held
    × MayMeet s (poll_pending {E = E} s.writer answers.held).0.body answers.fresh

-- The calls of the writer, with answers that the channel may give.
pub data MayCall {E : Type 0} (s : System E) : Call → Type 0 where
  writing : (answers : Answers) (buf : Bytes) → MayAnswers s answers → MayCall s (write answers buf)
  flushing : (answers : Answers) → MayAnswers s answers → MayCall s (flush answers)
  shutting : (answers : Answers) → MayAnswers s answers → MayCall s (shutdown answers)

-- `Drop` of the writer: what it still held is lost with it.
abbrev pub dropped_writer : S3UploadWriter → S3UploadWriter
dropped_writer w = record w { sender = false; pending = none; state = dropped w }

-- The bytes that the request has received.
abbrev pub body_received : {E : Type 0} → System E → Bytes
body_received s = joined (first s.received s.writer.body)

-- `Accepts n bytes`: the storage answers a request of the declared length `n` with success.
pub data Step {E : Type 0} (Accepts : ℕ → Bytes → Type 0) (s : System E) : System E → Type 0 where
  calls :
      (c : Call)
      → s.alive ≡ true
      → MayCall s c
      → Step Accepts s
          (record s { writer = step E s.writer c; written = s.written ++ taken E s.writer c })
  drops_writer :
      s.alive ≡ true → Step Accepts s (record s { writer = dropped_writer s.writer; alive = false })
  -- `body_started` resolves, and the task decides whether to ask the storage at all.
  starts :
      s.task ≡ held_back
      → s.writer.state.body_started ≡ true
      → (result : Result (Unit {0}) (S3Error E))
      → (upload_task {E = E} s.writer.state s.writer.bucket_name s.writer.key result).0 ≡ true
      → Step Accepts s (record s { task = streaming })
  gives_up :
      s.task ≡ held_back
      → s.writer.state.body_started ≡ true
      → (result : Result (Unit {0}) (S3Error E))
      → (upload_task {E = E} s.writer.state s.writer.bucket_name s.writer.key result).0 ≡ false
      → Step Accepts s (record s {
        task = ended (upload_task s.writer.state s.writer.bucket_name s.writer.key result).1;
      })
  hands_over :
      s.visible < count s.writer.body → Step Accepts s (record s { visible = s.visible + 1 })
  receives :
      s.task ≡ streaming
      → s.received < s.visible
      → Step Accepts s (record s { received = s.received + 1 })
  succeeds :
      s.task ≡ streaming
      → Accepts s.writer.state.content_length (body_received s)
      → Step Accepts s (record s { task = ended (ok tt) })
  fails :
      s.task ≡ streaming
      → (error : S3Error E) → Step Accepts s (record s { task = ended (err error) })
  -- `Drop` of the handle, before the task has finished.
  drops_handle :
      is_open s.task ≡ true
      → Step Accepts s (record s {
        writer = record (s.writer) { state = mark_upload_ended s.writer.state };
        task = aborted;
      })

-- `start_upload`, before anything has run.
unfoldable pub started : {E : Type 0} → Bytes → Bytes → ℕ → ℕ → System E
unfolding new
started bucket_name key content_length chunk_size = record {
  writer = new bucket_name key content_length chunk_size;
  alive = true;
  visible = 0;
  received = 0;
  task = held_back;
  written = [];
}

pub data Reach {E : Type 0} (Accepts : ℕ → Bytes → Type 0) (initial : System E)
    : System E → Type 0 where
  start : Reach Accepts initial initial
  later : {s t : System E} → Reach Accepts initial s → Step Accepts s t → Reach Accepts initial t
