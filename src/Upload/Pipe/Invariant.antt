-- ===== src/Upload/Pipe/Invariant.antt =====
-- What holds in every state that an upload can reach, whatever the order of its steps: the writer of
-- src/upload_writer.rs, the channel and the task of `start_upload` together.
use my_s.Base.{
  ℕ, ◌+◌, ◌≤◌, ◌≡◌, refl, ap, ◌∙◌, true, List, [], ◌∷◌, ◌++◌, Bytes, joined, length, ok, arith,
  zero, suc,
}
use my_s.Upload.Writer.{S3UploadWriter, Reserve, full, room, closed, Answers, poll_pending}
use my_s.Upload.Invariant.{Inv}
use my_s.Upload.Stream.{Follows}
use my_s.Upload.Run.{Call, step}
use my_s.Upload.Pipe.{
  System, ended, count, first, MayMeet, MayAnswers, MayCall, writing, flushing, shutting,
  body_received, upload_channel_capacity,
}
use my_s.Upload.Pipe.Parked.{
  Grants, Parked, poll_pending-Parked, poll_write-Parked, poll_flush-Parked, poll_shutdown-Parked,
}

-- The channel's chunks: those that the request has, `front`, and at most the capacity behind them,
-- of which the request sees some.
abbrev pub Within : ℕ → ℕ → List Bytes → List Bytes → Type 0
Within visible received front chunks =
    (visible ≤ count chunks)
    × (count chunks ≤ received + upload_channel_capacity)
    × (first received chunks ≡ front)

pub record IsSound {E : Type 0} (content_length : ℕ) (s : System E) : Type 0 where
  pub intact : s.alive ≡ true → Inv s.writer × Follows s.written s.writer
  pub declared : s.writer.state.content_length ≡ content_length
  pub within : s.writer.state.accepted ≤ content_length
  pub sent : s.writer.state.sent ≤ s.writer.state.accepted
  pub delivered : length (joined s.writer.body) ≡ s.writer.state.sent
  pub reported : length s.written ≤ s.writer.state.accepted
  pub order : (rest : Bytes) × (s.written ≡ joined s.writer.body ++ rest)
  pub seen : s.received ≤ s.visible
  pub parked : Parked (Within s.visible s.received (first s.received s.writer.body)) s.writer
  -- The storage has answered with success only to a complete message.
  pub complete : s.task ≡ ended (ok tt) → length (body_received s) ≡ content_length

count-snoc : (cs : List Bytes) (c : Bytes) → count (cs ++ c ∷ []) ≡ count cs + 1
count-snoc [] c = refl
count-snoc (d ∷ cs) c = omega (arith, count-snoc cs c)

first-snoc :
    (n : ℕ) (cs : List Bytes) (c : Bytes) → n ≤ count cs → first n (cs ++ c ∷ []) ≡ first n cs
first-snoc zero cs c le = refl
first-snoc (suc n) [] c le = absurd (omega arith)
first-snoc (suc n) (d ∷ cs) c le = ap (d ∷◌) (first-snoc n cs c (omega arith))

module _ {E : Type 0} (s : System E) where
  -- A permit is given only while there is room.
  MayMeet-Grants :
      (front : List Bytes) (w : S3UploadWriter) (answer : Reserve)
      → s.received ≤ s.visible
      → Within s.visible s.received front w.body
      → MayMeet s w.body answer
      → Grants (Within s.visible s.received front) w answer
  MayMeet-Grants front w room seen (have, fit, same) (open_, below) is_room chunk = (
    omega (arith, count-snoc w.body chunk),
    omega (arith, count-snoc w.body chunk),
    first-snoc s.received w.body chunk (omega arith) ∙ same,
  )
  MayMeet-Grants front w full seen within may is_room chunk = absurd cc
  MayMeet-Grants front w closed seen within may is_room chunk = absurd cc

  -- What a call of the writer does to the channel.
  pub step-Parked :
      (c : Call)
      → MayCall s c
      → (front : List Bytes) → s.received ≤ s.visible
      → Parked (Within s.visible s.received front) s.writer
      → Parked (Within s.visible s.received front) (step E s.writer c)
  unfolding step
  step-Parked c may front seen p = go may
    where
      held_grants :
          (answers : Answers)
          → MayAnswers s answers
          → Grants (Within s.visible s.received front) s.writer answers.held
      held_grants answers (held_may, fresh_may) =
          MayMeet-Grants front s.writer answers.held seen p.taken held_may

      fresh_grants :
          (answers : Answers)
          → MayAnswers s answers
          → Grants
              (Within s.visible s.received front)
              (poll_pending {E = E} s.writer answers.held).0
              answers.fresh
      fresh_grants answers (held_may, fresh_may) =
          MayMeet-Grants front (poll_pending {E = E} s.writer answers.held).0 answers.fresh seen
            (poll_pending-Parked E _ s.writer answers.held p
              (MayMeet-Grants front s.writer answers.held seen p.taken held_may)).taken
            fresh_may

      go : {c : Call} → MayCall s c → Parked (Within s.visible s.received front) (step E s.writer c)
      go (writing answers buf may) =
          poll_write-Parked E _ s.writer answers buf p (held_grants answers may)
            (fresh_grants answers may)
      go (flushing answers may) =
          poll_flush-Parked E _ s.writer answers p (held_grants answers may)
            (fresh_grants answers may)
      go (shutting answers may) =
          poll_shutdown-Parked E _ s.writer answers p (held_grants answers may)
            (fresh_grants answers may)
