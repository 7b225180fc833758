-- ===== src/Upload/Pipe/Steps.antt =====
-- Every step of a streamed upload, of src/upload_writer.rs, src/upload_handle.rs and src/s3_client.rs
-- together, keeps what holds between steps.
use my_s.Base.{
  ℕ, ◌+◌, ◌<◌, ◌≡◌, inl, inr, refl, ap, sym, ◌∙◌, true, false, if-true, if-false, Bool-cases, [],
  ◌++◌, Bytes, joined, length, length-append, Result, ok, arith, u64_mod, ◌&&◌,
}
use my_s.Error.{S3Error}
use my_s.Upload.State.{mark_upload_ended, mark_body_ended, initial, short_body_error}
use my_s.Upload.Writer.{S3UploadWriter, new, dropped}
use my_s.Upload.Invariant.{held}
use my_s.Upload.Run.{Call, handle_gone, step, taken, step-Inv, step-Follows, new-Inv, new-Follows}
use my_s.Upload.Delivery.{step-count, step-content_length}
use my_s.Upload.Handle.{upload_task, is_some}
use my_s.Upload.Pipe.{
  System, Task, streaming, ended, aborted, count, first, MayCall, dropped_writer, body_received,
  Step, calls, drops_writer, starts, gives_up, hands_over, receives, succeeds, fails, drops_handle,
  Reach, start, later, started,
}
use my_s.Upload.Pipe.Invariant.{IsSound, step-Parked}

dropped-kept :
    (w : S3UploadWriter)
    → ((dropped w).content_length ≡ w.state.content_length)
      × ((dropped w).accepted ≡ w.state.accepted)
      × ((dropped w).sent ≡ w.state.sent)
unfolding dropped mark_body_ended
dropped-kept w = elim (Bool-cases w.sender) [
  | inl e ↦ rw (if-true _ _ e) (refl, refl, refl)
  | inr e ↦ rw (if-false _ _ e) (refl, refl, refl)
]

module _ {E : Type 0} (content_length : ℕ) where
  calls-IsSound :
      (s : System E) (c : Call)
      → s.alive ≡ true
      → MayCall s c
      → IsSound content_length s
      → IsSound content_length
          (record s { writer = step E s.writer c; written = s.written ++ taken E s.writer c })
  calls-IsSound s c alive may v =
      let (inv, follows) = v.intact alive in
      let inv' = step-Inv E s.writer c inv in
      let follows' = step-Follows E s.writer c follows in
      let parked' = step-Parked s c may (first s.received s.writer.body) v.seen v.parked in
      let (have, fit, same) = parked'.taken in
      let fixed = step-content_length E s.writer c in
      record {
        intact = λ _. (inv', follows');
        declared = fixed ∙ v.declared;
        within = omega (arith, inv'.within, fixed, v.declared);
        sent = omega (arith, inv'.budget);
        delivered = inv'.delivered;
        reported = omega (
          arith,
          length-append s.written (taken E s.writer c),
          step-count E s.writer c inv,
          v.reported,
        );
        order = (held (step E s.writer c).pending ++ follows'.rest, follows'.order);
        seen = v.seen;
        parked = record { announced = parked'.announced; taken = (have, fit, refl) };
        complete = λ done. ap (λ cs. length (joined cs)) same ∙ v.complete done;
      }

  -- A step that leaves the writer and the chunks alone.
  task-IsSound :
      (s : System E) (task : Task E)
      → (task ≡ ended (ok tt) → length (body_received s) ≡ content_length)
      → IsSound content_length s
      → IsSound content_length (record s { task = task })
  task-IsSound s task complete v = record {
    intact = v.intact;
    declared = v.declared;
    within = v.within;
    sent = v.sent;
    delivered = v.delivered;
    reported = v.reported;
    order = v.order;
    seen = v.seen;
    parked = v.parked;
    complete = complete;
  }

  drops_writer-IsSound :
      (s : System E)
      → IsSound content_length s
      → IsSound content_length (record s { writer = dropped_writer s.writer; alive = false })
  drops_writer-IsSound s v =
      let (length, accepted, sent) = dropped-kept s.writer in
      record {
        intact = λ alive. absurd cc;
        declared = length ∙ v.declared;
        within = omega (arith, accepted, v.within);
        sent = omega (arith, accepted, sent, v.sent);
        delivered = v.delivered ∙ sym sent;
        reported = omega (arith, accepted, v.reported);
        order = v.order;
        seen = v.seen;
        parked = record { announced = inl refl; taken = v.parked.taken };
        complete = v.complete;
      }

  drops_handle-IsSound :
      (s : System E)
      → IsSound content_length s
      → IsSound content_length (record s {
        writer = record (s.writer) { state = mark_upload_ended s.writer.state };
        task = aborted;
      })
  unfolding mark_upload_ended step
  drops_handle-IsSound s v = record {
    intact = λ alive.
        let (inv, follows) = v.intact alive in
        (
          step-Inv E s.writer handle_gone inv,
          record { rest = follows.rest; order = follows.order; kept = inl refl },
        );
    declared = v.declared;
    within = v.within;
    sent = v.sent;
    delivered = v.delivered;
    reported = v.reported;
    order = v.order;
    seen = v.seen;
    parked = record { announced = v.parked.announced; taken = v.parked.taken };
    complete = λ done. absurd cc;
  }

  hands_over-IsSound :
      (s : System E)
      → s.visible < count s.writer.body
      → IsSound content_length s
      → IsSound content_length (record s { visible = s.visible + 1 })
  hands_over-IsSound s more v =
      let (have, fit, same) = v.parked.taken in
      record {
        intact = v.intact;
        declared = v.declared;
        within = v.within;
        sent = v.sent;
        delivered = v.delivered;
        reported = v.reported;
        order = v.order;
        seen = omega (arith, v.seen);
        parked = record { announced = v.parked.announced; taken = (omega arith, fit, same) };
        complete = v.complete;
      }

  receives-IsSound :
      (s : System E)
      → s.task ≡ streaming
      → s.received < s.visible
      → IsSound content_length s
      → IsSound content_length (record s { received = s.received + 1 })
  receives-IsSound s running more v =
      let (have, fit, same) = v.parked.taken in
      record {
        intact = v.intact;
        declared = v.declared;
        within = v.within;
        sent = v.sent;
        delivered = v.delivered;
        reported = v.reported;
        order = v.order;
        seen = omega arith;
        parked = record {
          announced = v.parked.announced;
          taken = (omega arith, omega arith, refl);
        };
        complete = λ done. absurd cc;
      }

  gave_up :
      (s : System E) (result : Result (Unit {0}) (S3Error E))
      → let task = upload_task {E = E} s.writer.state s.writer.bucket_name s.writer.key result in
        task.0 ≡ false
        → ◌≡◌ {A = Task E} (ended task.1) (ended (ok tt))
        → length (body_received s) ≡ content_length
  unfolding upload_task
  gave_up s result stays done =
      elim (Bool-cases
        (s.writer.state.body_ended && is_some (short_body_error {E = E} s.writer.state))) [
          | inl short ↦ absurd (ground arith)
          | inr whole ↦ absurd (ground arith)
        ]

  module _ (Accepts : ℕ → Bytes → Type 0)
      (is_complete : (n : ℕ) (body : Bytes) → Accepts n body → length body ≡ n) where
    step-IsSound :
        {s t : System E} → Step Accepts s t → IsSound content_length s → IsSound content_length t
    step-IsSound {s = s} (calls c alive may) v = calls-IsSound s c alive may v
    step-IsSound {s = s} (drops_writer alive) v = drops_writer-IsSound s v
    step-IsSound {s = s} (starts waits announced result asks) v =
        task-IsSound s streaming (λ done. absurd cc) v
    step-IsSound {s = s} (gives_up waits announced result stays) v =
        task-IsSound s _ (gave_up s result stays) v
    step-IsSound {s = s} (hands_over more) v = hands_over-IsSound s more v
    step-IsSound {s = s} (receives running more) v = receives-IsSound s running more v
    step-IsSound {s = s} (succeeds running accepts) v =
        task-IsSound s _ (λ done. is_complete _ _ accepts ∙ v.declared) v
    step-IsSound {s = s} (fails running error) v = task-IsSound s _ (λ done. absurd cc) v
    step-IsSound {s = s} (drops_handle running) v = drops_handle-IsSound s v

    pub reach-IsSound :
        {initial s : System E}
        → Reach Accepts initial s
        → IsSound content_length initial
        → IsSound content_length s
    reach-IsSound start v = v
    reach-IsSound (later r step) v = step-IsSound step (reach-IsSound r v)

pub started-IsSound :
    (E : Type 0) (bucket_name key : Bytes) (content_length chunk_size : ℕ)
    → content_length < u64_mod
    → chunk_size < u64_mod
    → IsSound content_length (started {E = E} bucket_name key content_length chunk_size)
unfolding started new initial
started-IsSound E bucket_name key content_length chunk_size fits chunk = record {
  intact = λ alive. (
    new-Inv E bucket_name key content_length chunk_size fits chunk,
    new-Follows E bucket_name key content_length chunk_size,
  );
  declared = refl;
  within = omega arith;
  sent = omega arith;
  delivered = refl;
  reported = omega arith;
  order = ([], refl);
  seen = omega arith;
  parked = record { announced = inl refl; taken = (omega arith, omega arith, refl) };
  complete = λ done. absurd cc;
}
