-- ===== src/Upload/Tests.antt =====
-- Uploads of src/upload_writer.rs and src/upload_handle.rs at concrete inputs.
use my_s.Base.{
  ◌<◌, ◌≤◌, ◌+◌, ◌≡◌, ◌≢◌, ◌↔◌, refl, true, false, List, [], ◌∷◌, ◌++◌, Bytes, joined, length, none,
  Result, ok, err, ready, arith, some, sub_u64, add_u64,
}
use my_s.Error.{S3Error, FlUrlErrorView, FlUrlVariant, key_not_found}
use my_s.Upload.State.{UploadWriterState, initial, short_body_error, mark_upload_ended}
use my_s.Upload.Writer.{
  S3UploadWriter, Answers, room, full, new, poll_write, poll_flush, poll_shutdown,
}
use my_s.Upload.Invariant.{Inv}
use my_s.Upload.Run.{
  Call, write, shutdown, run, step, written, run-new-Inv, body-prefix, shutdown-delivers, new-Inv,
}
use my_s.Upload.Calls.{poll_write-waiting, poll_write-progress, room_for}
use my_s.Upload.Handle.{S3UploadHandle, finish, dropped, finish_upload_with_writer}
use my_s.Upload.Verdict.{finish-ok_iff, finish-finish_upload_with_writer}
use my_s.Upload.Delivery.{finish-stored, dropped-refuses}

abbrev Error : Type 0
Error = Unit {0}

abbrev fresh : S3UploadWriter
fresh = new [] [] 3 2

abbrev empty_object : S3UploadWriter
empty_object = new [] [] 0 2

abbrev yes_room : Answers
yes_room = record { held = room; fresh = room }

abbrev calls : List Call
calls = write yes_room (1 ∷ 2 ∷ 3 ∷ []) ∷ write yes_room (3 ∷ []) ∷ []

abbrev all_calls : List Call
all_calls = write yes_room (1 ∷ 2 ∷ 3 ∷ []) ∷ write yes_room (3 ∷ []) ∷ shutdown yes_room ∷ []

test_run : joined (run Error fresh all_calls).body ≡ 1 ∷ 2 ∷ 3 ∷ []
unfolding run step new poll_write poll_shutdown sub_u64 add_u64
test_run = refl

shutdown-delivers_example :
    let s = poll_shutdown {E = Error} (run Error fresh calls) yes_room in
    (joined s.0.body ≡ written Error fresh calls)
    × (s.0.state.body_ended ≡ true)
    × (s.0.sender ≡ false)
unfolding run step new poll_write poll_shutdown sub_u64 add_u64
shutdown-delivers_example = shutdown-delivers Error [] [] 3 2 calls yes_room refl refl

body-prefix_example :
    (rest : Bytes) × (written Error fresh calls ≡ joined (run Error fresh calls).body ++ rest)
body-prefix_example = body-prefix Error [] [] 3 2 calls

run-new-Inv_example : Inv (run Error fresh all_calls)
run-new-Inv_example = run-new-Inv Error [] [] 3 2 all_calls (omega arith) (omega arith)

-- A writer whose last chunk is waiting for room.
abbrev blocked : S3UploadWriter
blocked = record (new [] [] 3 2) { pending = some (1 ∷ 2 ∷ []) }

abbrev no_room : Answers
no_room = record { held = full; fresh = full }

poll_write-waiting_example :
    ((poll_write {E = Error} blocked no_room (3 ∷ [])).0 ≡ blocked)
    × (blocked.pending ≢ none)
    × (no_room.held ≡ full)
unfolding poll_write new
poll_write-waiting_example = poll_write-waiting Error blocked no_room (3 ∷ []) refl

poll_write-progress_example :
    let s = poll_write {E = Error} fresh yes_room (1 ∷ 2 ∷ 3 ∷ []) in
    (s.1 ≡ ready (ok (room_for Error fresh (1 ∷ 2 ∷ 3 ∷ []))))
    × (0 < room_for Error fresh (1 ∷ 2 ∷ 3 ∷ []))
    × (s.0.state.accepted ≡ fresh.state.accepted + room_for Error fresh (1 ∷ 2 ∷ 3 ∷ []))
unfolding new
poll_write-progress_example =
    poll_write-progress Error fresh yes_room 1 (2 ∷ 3 ∷ [])
      (new-Inv Error [] [] 3 2 (omega arith) (omega arith)) refl refl refl (omega arith) (λ e. cc)

abbrev ended_upload : S3UploadWriter
ended_upload = record (new [] [] 3 2) { state = mark_upload_ended (initial 3) }

-- A handle whose upload was accepted, with the given state.
abbrev handle_of : Result (Unit {0}) (S3Error Error) → UploadWriterState → S3UploadHandle Error
handle_of result s = record { upload = ok result; state = s; bucket_name = []; key = [] }

abbrev stored_state : UploadWriterState
stored_state = record (initial 3) { accepted = 3; sent = 3; body_ended = true; body_started = true }

abbrev short_state : UploadWriterState
short_state = record (initial 3) { accepted = 3; sent = 2; body_ended = true; body_started = true }

abbrev stored : S3UploadHandle Error
stored = handle_of (ok tt) stored_state

finish-ok_iff_example :
    (finish stored ≡ ok tt)
    ↔ ((stored.upload ≡ ok (ok tt)) × (stored.state.content_length ≤ stored.state.sent))
finish-ok_iff_example = finish-ok_iff stored

-- No flurl error occurs.
abbrev view : FlUrlErrorView Error
view = record { is_timeout = λ e. false; variant = λ e. FlUrlVariant.other_variant }

finish-finish_upload_with_writer_example :
    finish (handle_of (err key_not_found) short_state)
    ≡ finish_upload_with_writer (err key_not_found) (ok (ok tt)) short_state
unfolding initial
finish-finish_upload_with_writer_example =
    finish-finish_upload_with_writer (handle_of (err key_not_found) short_state) (err key_not_found)
      refl refl

-- The handle that shares the state of the writer after all calls.
abbrev shared : S3UploadHandle Error
shared = handle_of (ok tt) (run Error fresh all_calls).state

finish-stored_example :
    (joined (run Error fresh all_calls).body ≡ written Error fresh all_calls)
    × (length (written Error fresh all_calls) ≡ 3)
unfolding run step new poll_write poll_shutdown sub_u64 add_u64 finish short_body_error
finish-stored_example =
    finish-stored Error [] [] 3 2 all_calls shared (omega arith) (omega arith) refl refl

dropped-refuses_example :
    let v = record fresh { state = (dropped stored false).0 } in
    ((dropped stored false).1 ≡ true)
    × ((poll_write {E = Error} v yes_room (1 ∷ [])).1 ≢ ready (ok 1))
    × ((poll_flush {E = Error} v yes_room).1 ≢ ready (ok tt))
    × ((poll_shutdown {E = Error} v yes_room).1 ≢ ready (ok tt))
unfolding new
dropped-refuses_example = dropped-refuses Error stored fresh yes_room 1 [] 1 refl
