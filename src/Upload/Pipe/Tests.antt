-- ===== src/Upload/Pipe/Tests.antt =====
-- A started upload of src/s3_client.rs at concrete inputs: two bytes, written in one call, received as
-- one chunk.
use my_s.Base.{
  ℕ, ◌≤◌, ◌+◌, ◌≡◌, ◌↔◌, refl, true, false, [], ◌∷◌, none, some, Bytes, codes, length, Result, ok,
  sub_u64, add_u64, arith,
}
use my_s.Error.{S3Error}
use my_s.Upload.State.{initial, short_body_error}
use my_s.Upload.Writer.{
  S3UploadWriter, Answers, full, room, new, bytes_written, poll_write, poll_pending, write_settled,
}
use my_s.Upload.Run.{write, step, taken}
use my_s.Upload.Handle.{finish, upload_task, bytes_sent}
use my_s.Upload.Pipe.{
  System, held_back, ended, is_open, writing, body_received, calls, starts, hands_over, receives,
  succeeds, count, upload_channel_capacity, Reach, start, later, started,
}
use my_s.Upload.Pipe.Waiting.{WakesWithin, waiting-WakesWithin}
use my_s.Upload.Pipe.Safety.{settled_handle, finish-received, finish-accepted, bytes_sent-counts}

abbrev Error : Type 0
Error = Unit {0}

abbrev Accepts : ℕ → Bytes → Type 0
Accepts n body = length body ≡ n

abbrev answers : Answers
answers = record { held = full; fresh = room }

abbrev writer : S3UploadWriter
writer = record {
  bucket_name = codes "b";
  key = codes "k";
  sender = true;
  buffer = [];
  chunk_size = 2;
  pending = none;
  state = record {
    content_length = 2;
    accepted = 2;
    sent = 2;
    upload_ended = false;
    body_ended = false;
    body_started = true;
  };
  body = (1 ∷ 2 ∷ []) ∷ [];
}

abbrev over : System Error
over = record {
  writer = writer;
  alive = true;
  visible = 1;
  received = 1;
  task = ended (ok tt);
  written = 1 ∷ 2 ∷ [];
}

-- Write, hand over, start, receive, succeed.
reached : Reach Accepts (started (codes "b") (codes "k") 2 2) over
unfolding started new initial step taken poll_write poll_pending write_settled is_open upload_task
    sub_u64 add_u64
reached =
    later
      (later
        (later
          (later
            (later start (
              calls (write answers (1 ∷ 2 ∷ [])) refl
                (writing answers (1 ∷ 2 ∷ []) (tt, (refl, omega arith)))))
            (hands_over (omega arith)))
          (starts refl refl (ok tt) refl))
        (receives refl (omega arith)))
      (succeeds refl refl)

finish-received_example : (body_received over ≡ over.written) × (length over.written ≡ 2)
unfolding finish short_body_error
finish-received_example =
    finish-received Accepts (λ n body whole. whole) (codes "b") (codes "k") 2 2 (omega arith)
      (omega arith) (ok tt) reached refl refl

abbrev result : Result (Unit {0}) (S3Error Error)
result = ok tt

finish-accepted_example :
    (finish {E = Error} (settled_handle over result) ≡ ok tt) ↔ (result ≡ ok tt)
finish-accepted_example =
    finish-accepted Accepts (λ n body whole. whole) (codes "b") (codes "k") 2 2 (omega arith)
      (omega arith) result reached refl

-- The first write, answered with a channel that is full: the chunk is held, and the task may start.
abbrev parked : System Error
parked = record {
  writer = record writer {
    pending = some (1 ∷ 2 ∷ []);
    state = record {
      content_length = 2;
      accepted = 2;
      sent = 0;
      upload_ended = false;
      body_ended = false;
      body_started = true;
    };
    body = [];
  };
  alive = true;
  visible = 0;
  received = 0;
  task = held_back;
  written = 1 ∷ 2 ∷ [];
}

parked-reached : Reach Accepts (started (codes "b") (codes "k") 2 2) parked
unfolding started new initial step taken poll_write poll_pending write_settled sub_u64 add_u64
parked-reached = later start (
    calls (write (record { held = full; fresh = full }) (1 ∷ 2 ∷ [])) refl
      (writing (record { held = full; fresh = full }) (1 ∷ 2 ∷ []) (tt, tt)))

waiting-WakesWithin_example : WakesWithin Accepts 3 parked
waiting-WakesWithin_example =
    waiting-WakesWithin Accepts (λ n body whole. whole) (codes "b") (codes "k") 2 2 (omega arith)
      (omega arith) (1 ∷ 2 ∷ []) parked-reached refl

bytes_sent-counts_example :
    (length (body_received over) ≤ bytes_sent (settled_handle over result))
    × (bytes_sent (settled_handle over result) ≤ bytes_written over.writer)
    × (length over.written ≤ bytes_written over.writer)
    × (bytes_written over.writer ≤ 2)
    × (count over.writer.body ≤ over.received + upload_channel_capacity)
bytes_sent-counts_example =
    bytes_sent-counts Accepts (λ n body whole. whole) (codes "b") (codes "k") 2 2 (omega arith)
      (omega arith) (settled_handle over result) reached refl
