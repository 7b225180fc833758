-- ===== src/Upload/Stream.antt =====
-- What `S3UploadWriter` hands to the channel: the bytes that it reported as written, in order.
pub mod Closing
use my_s.Base.{
  ℕ, true, false, not, ap, sym, none, some, List, [], ◌∷◌, ◌++◌, Bytes, ◌∙◌, ◌≡◌, ◌⊎◌, inl, inr,
  refl, append-nil, append_assoc, joined, joined-append, take, length, ltb, ◌==◌, if-true, if-false,
  Bool-cases, Option-cases, Result, ok, err, Poll, ready, waiting, sub_u64, add_u64, arith,
}
use my_s.Upload.State.{mark_upload_ended, mark_body_started}
use my_s.Upload.Writer.{
  S3UploadWriter, Reserve, full, room, closed, Answers, Step, poll_send, poll_pending, start_send,
  upload_is_gone, wrote, fill, accept, write_settled, poll_write, settled,
}
use my_s.Upload.Invariant.{held, poll_pending-idle}

-- The channel, the held send and some rest spell `offered`; the rest is the buffer unless the upload
-- has ended under the writer.
pub record Follows (offered : Bytes) (w : S3UploadWriter) : Type 0 where
  pub rest : Bytes
  pub order : offered ≡ joined w.body ++ (held w.pending ++ rest)
  pub kept : (w.state.upload_ended ≡ true) ⊎ (rest ≡ w.buffer)

-- What a `poll_write` says that it took from `buf`.
abbrev pub reported : {E : Type 0} → Poll (Result ℕ E) → Bytes → Bytes
reported (ready (ok n)) buf = take n buf
reported (ready (err e)) buf = []
reported waiting buf = []

joined-snoc : (cs : List Bytes) (c : Bytes) → joined (cs ++ c ∷ []) ≡ joined cs ++ c
joined-snoc cs c = joined-append cs (c ∷ []) ∙ ap (◌++◌ (joined cs)) (append-nil c)

module _ (E : Type 0) where
  poll_send-Follows :
      (w : S3UploadWriter) (chunk : Bytes) (answer : Reserve) {offered : Bytes}
      → Follows offered (record w { pending = some chunk })
      → Follows offered (poll_send {E = E} w chunk answer).0
  unfolding poll_send
  poll_send-Follows w chunk full f = f
  poll_send-Follows w chunk room f = record {
    rest = f.rest;
    order = f.order ∙ simp (joined-snoc, append_assoc);
    kept = f.kept;
  }
  poll_send-Follows w chunk closed f = record {
    rest = chunk ++ f.rest;
    order = f.order;
    kept = inl refl;
  }

  poll_pending-Follows :
      (w : S3UploadWriter) (answer : Reserve) {offered : Bytes}
      → Follows offered w
      → Follows offered (poll_pending {E = E} w answer).0
  unfolding poll_pending
  poll_pending-Follows w answer f = elim (Option-cases w.pending) [
    | inl e ↦ rw (e, poll_pending) f
    | inr (c, e) ↦
        rw (e, poll_pending)
          (poll_send-Follows w c answer
            (record { rest = f.rest; order = rw e at f.order; kept = f.kept }))
  ]

  -- A chunk that `n` bytes of `buf` have filled up.
  sent-Follows :
      (w : S3UploadWriter) (answer : Reserve) (n : ℕ) (buf old : Bytes) {offered : Bytes}
      → w.buffer ≡ []
      → offered ≡ joined w.body ++ old
      → let s = wrote n (poll_send {E = E} w (old ++ take n buf) answer) in
        Follows (offered ++ reported s.1 buf) s.0
  unfolding wrote poll_send
  sent-Follows w full n buf old b e = record {
    rest = [];
    order = rw e (simp (append-nil, append_assoc));
    kept = inr (sym b);
  }
  sent-Follows w room n buf old b e = record {
    rest = [];
    order = rw e (simp (joined-snoc, append-nil, append_assoc));
    kept = inr (sym b);
  }
  sent-Follows w closed n buf old b e = record {
    rest = old;
    order = append-nil _ ∙ e;
    kept = inl refl;
  }

  fill-Follows :
      (w : S3UploadWriter) (answer : Reserve) (buf : Bytes) (n : ℕ) {offered : Bytes}
      → w.sender ≡ true
      → w.pending ≡ none
      → offered ≡ joined w.body ++ w.buffer
      → let s = fill {E = E} w answer buf n in Follows (offered ++ reported s.1 buf) s.0
  unfolding fill start_send mark_body_started
  fill-Follows w answer buf n open_ idle e =
      elim (Bool-cases (ltb (length (w.buffer ++ take n buf)) w.chunk_size)) [
        | inl small ↦ rw (if-true _ _ small) (record {
          rest = w.buffer ++ take n buf;
          order = rw (e, idle) (simp append_assoc);
          kept = inr refl;
        })
        | inr large ↦
            rw (if-false _ _ large, if-true _ _ open_)
              (sent-Follows
                (record w {
                  buffer = [];
                  state = record (w.state) {
                    accepted = add_u64 w.state.accepted n;
                    body_started = true;
                  };
                })
                answer n buf w.buffer refl e)
      ]

  -- A call that takes nothing, and leaves the writer or marks its upload as ended.
  stays-Follows :
      (w : S3UploadWriter) {offered : Bytes} → Follows offered w → Follows (offered ++ []) w
  stays-Follows w f = rw (append-nil _) f

  ends-Follows :
      (A : Type 0) (w : S3UploadWriter) {offered : Bytes}
      → Follows offered w
      → Follows offered (upload_is_gone {E = E} {A = A} w).0
  unfolding upload_is_gone mark_upload_ended
  ends-Follows A w f = record { rest = f.rest; order = f.order; kept = inl refl }

  write_settled-Follows :
      (w : S3UploadWriter) (answer : Reserve) (buf : Bytes) {offered : Bytes}
      → w.pending ≡ none
      → Follows offered w
      → let s = write_settled {E = E} w answer buf in Follows (offered ++ reported s.1 buf) s.0
  unfolding write_settled
  write_settled-Follows w answer [] idle f = rw (append-nil _) f
  write_settled-Follows w answer (b ∷ buf) {offered} idle f = elim (Bool-cases w.sender) [
    | inr shut ↦ rw (ap not shut, append-nil _) f
    | inl open_ ↦ rw (ap not open_) (elim (Bool-cases w.state.upload_ended) [
      | inl gone ↦ rw (if-true _ _ gone, append-nil _) (ends-Follows ℕ w f)
      | inr alive ↦ rw (if-false _ _ alive) (accept-Follows open_ (filling alive))
    ])
  ]
    where
      filling : w.state.upload_ended ≡ false → offered ≡ joined w.body ++ w.buffer
      filling alive = ground (arith, f.order, f.kept)

      accept-Follows :
          w.sender ≡ true
          → offered ≡ joined w.body ++ w.buffer
          → let s =
              accept {E = E} w answer (b ∷ buf) (sub_u64 w.state.content_length w.state.accepted) in
            Follows (offered ++ reported s.1 (b ∷ buf)) s.0
      accept-Follows open_ e =
          elim (Bool-cases (sub_u64 w.state.content_length w.state.accepted == 0)) [
            | inl done ↦ rw (if-true _ _ done, append-nil _) f
            | inr more ↦ rw (if-false _ _ more) (fill-Follows w answer (b ∷ buf) _ open_ idle e)
          ]

  -- One `poll_write`: the bytes that it reports follow those before it.
  pub poll_write-Follows :
      (w : S3UploadWriter) (answers : Answers) (buf : Bytes) {offered : Bytes}
      → Follows offered w
      → let s = poll_write {E = E} w answers buf in Follows (offered ++ reported s.1 buf) s.0
  unfolding poll_write
  poll_write-Follows w answers buf f =
      go (poll_pending w answers.held) (poll_pending-Follows w answers.held f)
        (poll_pending-idle E w answers.held)
    where
      go :
          (s : Step E (Unit {0})) {offered : Bytes}
          → Follows offered s.0
          → (s.1 ≡ ready (ok tt) → s.0.pending ≡ none)
          → let t = settled s (λ v. write_settled {E = E} v answers.fresh buf) in
            Follows (offered ++ reported t.1 buf) t.0
      go (v, waiting) g idle = stays-Follows v g
      go (v, ready (err x)) g idle = stays-Follows v g
      go (v, ready (ok done)) g idle = write_settled-Follows v answers.fresh buf (idle refl) g
