-- ===== src/Upload/Writer.antt =====
-- `S3UploadWriter` of src/upload_writer.rs: the body of a streamed upload as an `AsyncWrite`.
-- The bounded channel is tokio's. A poll of a send asks it for room, and its answer is an argument of
-- the call; `body` is the list of the chunks that it has taken, in order.
use my_s.Base.{
  ℕ, min, max, Bool, true, false, not, Option, none, some, List, [], ◌∷◌, ◌++◌, Bytes, codes,
  decimal, length, take, is_empty, ltb, ◌==◌, if◌then◌else◌, Result, ok, err, Poll, ready, waiting,
  add_u64, sub_u64,
}
use my_s.Error.{IoError, message, broken_pipe, invalid_input}
use my_s.Upload.State.{
  UploadWriterState, initial, mark_upload_ended, mark_body_started, mark_body_ended,
}

-- `Sender::reserve`: no room yet, a permit, or the receiver is gone.
pub data Reserve : Type 0 where
  full room closed : Reserve

-- The channel's answers in one call: to the send that an earlier call left over, and to a new one.
pub record Answers : Type 0 where
  pub held : Reserve
  pub fresh : Reserve

pub record S3UploadWriter : Type 0 where
  pub bucket_name : Bytes
  pub key : Bytes
  -- Whether `sender` is still `Some`.
  pub sender : Bool
  pub buffer : Bytes
  pub chunk_size : ℕ
  -- The chunk of a send that has been started and not accepted.
  pub pending : Option Bytes
  pub state : UploadWriterState
  -- The channel's side: what it has taken.
  pub body : List Bytes

-- `DEFAULT_UPLOAD_CHUNK_SIZE`.
abbrev pub default_upload_chunk_size : ℕ
default_upload_chunk_size = 524288

unfoldable pub new : Bytes → Bytes → ℕ → ℕ → S3UploadWriter
unfolding initial
new bucket_name key content_length chunk_size = record {
  bucket_name = bucket_name;
  key = key;
  sender = true;
  buffer = [];
  chunk_size = max chunk_size 1;
  pending = none;
  state = initial content_length;
  body = [];
}

unfoldable pub bytes_written : S3UploadWriter → ℕ
bytes_written w = w.state.accepted

object_name : S3UploadWriter → Bytes
object_name w = w.bucket_name ++ codes "/" ++ w.key

pub past_end_text : S3UploadWriter → Bytes → Bytes
past_end_text w buf =
    codes "S3UploadWriter: "
    ++ object_name w
    ++ codes " was opened for "
    ++ decimal w.state.content_length
    ++ codes " bytes and all of them have been written - "
    ++ decimal (length buf)
    ++ codes " more were offered"

pub gone_text : S3UploadWriter → Bytes
gone_text w =
    codes "S3UploadWriter: the upload of "
    ++ object_name w
    ++ codes " has already ended - its own error says why"

pub shut_down_text : S3UploadWriter → Bytes
shut_down_text w =
    codes "S3UploadWriter: the body of "
    ++ object_name w
    ++ codes " was ended by shutdown() and cannot be written to again"

-- What a call returns: the writer after it, and its answer.
abbrev pub Step : Type 0 → Type 0 → Type 0
Step E A = S3UploadWriter × Poll (Result A (IoError E))

module _ {E : Type 0} where
  unfoldable pub upload_is_gone : {A : Type 0} → S3UploadWriter → Step E A
  unfolding mark_upload_ended
  upload_is_gone w = (
    record w { state = mark_upload_ended w.state },
    ready (err (message broken_pipe (gone_text w))),
  )

  unfoldable pub already_shut_down : {A : Type 0} → S3UploadWriter → Step E A
  already_shut_down w = (w, ready (err (message broken_pipe (shut_down_text w))))

  -- One poll of the future that sends `chunk`: room, then the count, then the chunk.
  unfoldable pub poll_send : S3UploadWriter → Bytes → Reserve → Step E (Unit {0})
  unfolding upload_is_gone
  poll_send w chunk full = (record w { pending = some chunk }, waiting)
  poll_send w chunk room = (
    record w {
      pending = none;
      state = record (w.state) { sent = add_u64 w.state.sent (length chunk) };
      body = w.body ++ chunk ∷ [];
    },
    ready (ok tt),
  )
  poll_send w chunk closed = upload_is_gone (record w { pending = none })

  unfoldable pub poll_pending : S3UploadWriter → Reserve → Step E (Unit {0})
  unfolding poll_send
  poll_pending w answer = elim w.pending [
    | none ↦ (w, ready (ok tt))
    | some chunk ↦ poll_send w chunk answer
  ]

  unfoldable pub start_send : S3UploadWriter → Bytes → Reserve → Step E (Unit {0})
  unfolding poll_send already_shut_down mark_body_started
  start_send w chunk answer =
      if w.sender
      then poll_send (record w { state = mark_body_started w.state }) chunk answer
      else already_shut_down w

  -- The end of `poll_write`: a send that has to wait counts as written.
  unfoldable pub wrote : ℕ → Step E (Unit {0}) → Step E ℕ
  wrote n (w, ready (err e)) = (w, ready (err e))
  wrote n (w, ready (ok done)) = (w, ready (ok n))
  wrote n (w, waiting) = (w, ready (ok n))

  -- `poll_write` with `n` bytes to take: into the buffer, and the full chunk out.
  unfoldable pub fill : S3UploadWriter → Reserve → Bytes → ℕ → Step E ℕ
  unfolding start_send wrote
  fill w answer buf n =
      let filled = w.buffer ++ take n buf in
      let state = record (w.state) { accepted = add_u64 w.state.accepted n } in
      if ltb (length filled) w.chunk_size
      then (record w { buffer = filled; state = state }, ready (ok n))
      else wrote n (start_send (record w { buffer = []; state = state }) filled answer)

  -- `poll_write` with `owed` bytes left of the declared length.
  unfoldable pub accept : S3UploadWriter → Reserve → Bytes → ℕ → Step E ℕ
  unfolding fill
  accept w answer buf owed =
      if owed == 0
      then (w, ready (err (message invalid_input (past_end_text w buf))))
      else fill w answer buf (min (min (length buf) (sub_u64 w.chunk_size (length w.buffer))) owed)

  -- `poll_write` once no send is outstanding.
  unfoldable pub write_settled : S3UploadWriter → Reserve → Bytes → Step E ℕ
  unfolding accept already_shut_down upload_is_gone
  write_settled w answer buf =
      if is_empty buf
      then (w, ready (ok 0))
      else if not w.sender
      then already_shut_down w
      else if w.state.upload_ended
      then upload_is_gone w
      else accept w answer buf (sub_u64 w.state.content_length w.state.accepted)

  -- `if this.poll_pending(cx)?.is_pending() { return Pending }`, and the rest of the call.
  abbrev pub settled : {A : Type 0} → Step E (Unit {0}) → (S3UploadWriter → Step E A) → Step E A
  settled (w, waiting) rest = (w, waiting)
  settled (w, ready (err e)) rest = (w, ready (err e))
  settled (w, ready (ok done)) rest = rest w

  unfoldable pub poll_write : S3UploadWriter → Answers → Bytes → Step E ℕ
  unfolding poll_pending write_settled
  poll_write w answers buf =
      settled (poll_pending w answers.held) (λ v. write_settled v answers.fresh buf)

  -- `poll_flush` once no send is outstanding.
  unfoldable pub flush_settled : S3UploadWriter → Reserve → Step E (Unit {0})
  unfolding start_send already_shut_down upload_is_gone
  flush_settled w answer =
      if w.state.upload_ended
      then upload_is_gone w
      else if is_empty w.buffer
      then (w, ready (ok tt))
      else if not w.sender
      then already_shut_down w
      else start_send (record w { buffer = [] }) w.buffer answer

  unfoldable pub poll_flush : S3UploadWriter → Answers → Step E (Unit {0})
  unfolding poll_pending flush_settled
  poll_flush w answers = settled (poll_pending w answers.held) (λ v. flush_settled v answers.fresh)

  -- The end of the body is recorded, and the sender goes.
  unfoldable pub end_body : S3UploadWriter → Step E (Unit {0})
  unfolding mark_body_ended
  end_body w = (record w { state = mark_body_ended w.state; sender = false }, ready (ok tt))

  unfoldable pub poll_shutdown : S3UploadWriter → Answers → Step E (Unit {0})
  unfolding poll_flush end_body
  poll_shutdown w answers =
      if not w.sender then (w, ready (ok tt)) else settled (poll_flush w answers) end_body

-- `Drop`: the shared state that a dropped writer leaves behind. A send that is still held dies.
unfoldable pub dropped : S3UploadWriter → UploadWriterState
unfolding mark_body_ended
dropped w = if w.sender then mark_body_ended w.state else w.state
