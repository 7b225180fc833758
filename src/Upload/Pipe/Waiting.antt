-- ===== src/Upload/Pipe/Waiting.antt =====
-- Why a writer of src/upload_writer.rs that waits for the channel does not wait forever.
use my_s.Base.{
  ℕ, zero, suc, ◌+◌, ◌≤◌, ◌<◌, ◌≡◌, ◌⊎◌, inl, inr, refl, ap, true, Bool-cases, Bytes, length, ok,
  arith, some, u64_mod, ltb, ltb→lt,
}
use my_s.Upload.Writer.{room, closed}
use my_s.Upload.Handle.{upload_task}
use my_s.Upload.Pipe.{
  System, Task, held_back, streaming, ended, aborted, is_open, count, MayAnswer, Step, calls,
  drops_writer, starts, gives_up, hands_over, receives, succeeds, fails, drops_handle, Reach,
  started, upload_channel_capacity,
}
use my_s.Upload.Pipe.Invariant.{IsSound}
use my_s.Upload.Pipe.Steps.{reach-IsSound, started-IsSound}

module _ {E : Type 0} (Accepts : ℕ → Bytes → Type 0) where
  -- A step that the channel or the task takes by itself: it is no call or drop of the writer or the
  -- handle, and it waits for nothing that the storage answers.
  abbrev pub IsOwn : {s t : System E} → Step Accepts s t → Type 0
  IsOwn (calls c alive may) = ⊥
  IsOwn (drops_writer alive) = ⊥
  IsOwn (starts held announced result asks) = Unit {0}
  IsOwn (gives_up held announced result stays) = Unit {0}
  IsOwn (hands_over more) = Unit {0}
  IsOwn (receives streams seen) = Unit {0}
  IsOwn (succeeds streams whole) = ⊥
  IsOwn (fails streams error) = ⊥
  IsOwn (drops_handle open_) = ⊥

  -- At most `n` such steps lead to a state in which the send of the writer is answered, with room or
  -- with the end of the upload; the writer is as it was.
  abbrev pub WakesWithin : ℕ → System E → Type 0
  WakesWithin zero s = MayAnswer s s.writer.body room ⊎ MayAnswer s s.writer.body closed
  WakesWithin (suc n) s =
      (MayAnswer s s.writer.body room ⊎ MayAnswer s s.writer.body closed)
      ⊎ ((t : System E) × (x : Step Accepts s t) × IsOwn x
          × (t.writer ≡ s.writer)
          × WakesWithin n t)

  WakesWithin-more : (n : ℕ) (s : System E) → WakesWithin n s → WakesWithin (suc n) s
  WakesWithin-more zero s now = inl now
  WakesWithin-more (suc n) s (inl now) = inl now
  WakesWithin-more (suc n) s (inr (t, x, own, same, later)) =
      inr (t, x, own, same, WakesWithin-more n t later)

  received_one :
      (s : System E)
      → s.task ≡ streaming
      → s.received < s.visible
      → count s.writer.body ≤ s.received + upload_channel_capacity
      → WakesWithin 1 s
  unfolding is_open
  received_one s e seen room_for =
      inr (_, receives e seen, tt, refl, inl (ap is_open e, omega (arith, room_for)))

  -- A task that streams makes room by receiving one chunk, once one has been handed over.
  streaming-WakesWithin :
      (s : System E)
      → s.task ≡ streaming
      → count s.writer.body ≤ s.received + upload_channel_capacity
      → s.received ≤ s.visible
      → WakesWithin 2 s
  unfolding is_open
  streaming-WakesWithin s e room_for behind =
      elim (Bool-cases (ltb (count s.writer.body) (s.received + upload_channel_capacity))) [
        | inl free ↦ inl (inl (ap is_open e, ltb→lt _ _ free))
        | inr tight ↦ elim (Bool-cases (ltb s.received s.visible)) [
          | inl more ↦ inr (
            _,
            receives e (ltb→lt _ _ more),
            tt,
            refl,
            inl (inl (ap is_open e, omega (arith, room_for))),
          )
          | inr none_seen ↦
              inr (_, hands_over (ground arith), tt, refl, received_one _ e (ground arith) room_for)
        ]
      ]

module _ {E : Type 0} (Accepts : ℕ → Bytes → Type 0)
    (is_complete : (n : ℕ) (body : Bytes) → Accepts n body → length body ≡ n)
    (bucket_name key : Bytes) (content_length chunk_size : ℕ) (fits : content_length < u64_mod)
    (chunk_fits : chunk_size < u64_mod) where
  -- A writer of a started upload whose send waits is never stuck: from every state that the upload can
  -- reach, at most three steps that the channel and the task take by themselves, to start or give up,
  -- to hand a counted chunk over and to receive one, lead to a state in which the channel may answer
  -- the send, with room or with the end of the upload. None of them asks anything of the writer, of
  -- the handle or of the storage. The storage is assumed to answer with success only to a request
  -- whose body has its declared length, and the declared length and the chunk size to be below 2^64.
  pub waiting-WakesWithin :
      {s : System E} (chunk : Bytes)
      → Reach Accepts (started bucket_name key content_length chunk_size) s
      → s.writer.pending ≡ some chunk
      → WakesWithin Accepts 3 s
  unfolding is_open
  waiting-WakesWithin {s = s} chunk r waits = go s.task refl
    where
      v : IsSound content_length s
      v =
          reach-IsSound content_length Accepts is_complete r
            (started-IsSound E bucket_name key content_length chunk_size fits chunk_fits)

      announced : s.writer.state.body_started ≡ true
      announced = elim v.parked.announced [ inl e ↦ absurd cc | inr e ↦ e ]

      go : (task : Task E) → s.task ≡ task → WakesWithin Accepts 3 s
      go (ended result) e = inl (inr (ap is_open e))
      go aborted e = inl (inr (ap is_open e))
      go held_back e =
          elim (Bool-cases
            (upload_task {E = E} s.writer.state s.writer.bucket_name s.writer.key (ok tt)).0) [
              | inl asks ↦ inr (
                _,
                starts e announced (ok tt) asks,
                tt,
                refl,
                streaming-WakesWithin Accepts _ refl v.parked.taken.1 v.seen,
              )
              | inr stays ↦ inr (_, gives_up e announced (ok tt) stays, tt, refl, inl (inr refl))
            ]
      go streaming e =
          WakesWithin-more Accepts 2 s (streaming-WakesWithin Accepts s e v.parked.taken.1 v.seen)
