-- ===== src/Reader/History/AsFile.antt =====
-- `S3Reader` of src/reader.rs is a file that holds its object, over any history of calls.
use my_s.Base.{
  ◌<◌, inl, inr, refl, sym, ◌∙◌, List, [], ◌∷◌, none, some, Bytes, length, Option-cases, u64_mod,
  arith, subst,
}
use my_s.Reader.{S3Reader, new, poll_read}
use my_s.Reader.File.{At-nil}
use my_s.Reader.File.OnePoll.{poll_read-ReadsAt}
use my_s.Reader.History.{
  ReaderCall, reads, starts_seek, completes, was_asked, was_completed, reader_after, event_of,
  events, IsFair, IsFile, IsSteady,
}
use my_s.Reader.History.Moves.{
  poll_read-seek_to, start_seek_cases, poll_complete-none, poll_complete-some, seeking-IsSteady,
  moved_to-IsSteady, moved_to,
}

module _ (E : Type 0) where
  steady-IsFile :
      (object : Bytes) (r : S3Reader) (cs : List (ReaderCall E))
      → IsSteady E object r
      → IsFair E object r cs
      → IsFile E object r.position r.seek_to (events E r cs)
  unfolding events reader_after event_of
  steady-IsFile object r [] steady fair = tt
  steady-IsFile object r (reads remaining outcome ∷ cs) steady ((free, honest), fair) =
      let one = poll_read-ReadsAt E object r remaining outcome steady.opened honest in
      let after = (poll_read r remaining outcome).reader in
      let rest =
        steady-IsFile object after cs
          (record {
            opened = one.opened;
            seeking = inl (poll_read-seek_to E r remaining outcome ∙ free);
          })
          fair in
      (
        one.put_at,
        (
          one.within,
          subst (λ p. IsFile E object p r.seek_to (events E after cs)) one.moved
              (subst (λ t. IsFile E object after.position t (events E after cs))
                (poll_read-seek_to E r remaining outcome) rest),
        ),
      )
  steady-IsFile object r (starts_seek from ∷ cs) steady (fair_seek, fair) =
      elim (start_seek_cases E object r from steady.opened.whole fair_seek) [
        | inl (aim, e, idle, free, means, small) ↦
            subst (λ s. IsFile E object r.position r.seek_to (was_asked from s.1 ∷ events E s.0 cs))
              (sym e)
              (
                free,
                (
                  aim,
                  (
                    means,
                    (steady-IsFile object (record r { seek_to = some aim }) cs
                        (seeking-IsSteady E object r aim steady.opened idle small)
                        (subst (λ s. IsFair E object s.0 cs) e fair)),
                  ),
                ),
              )
        | inr (error, e) ↦
            subst (λ s. IsFile E object r.position r.seek_to (was_asked from s.1 ∷ events E s.0 cs))
              (sym e)
              (steady-IsFile object r cs steady (subst (λ s. IsFair E object s.0 cs) e fair))
      ]
  steady-IsFile object r (completes ∷ cs) steady (done, fair) = elim (Option-cases r.seek_to) [
    | inl free ↦
        let e = poll_complete-none E r free in
        subst (λ s. IsFile E object r.position r.seek_to (was_completed s.1 ∷ events E s.0 cs))
          (sym e)
          (subst (λ t. IsFile E object r.position t (was_completed r.position ∷ events E r cs))
            (sym free)
            (
              refl,
              subst (λ t. IsFile E object r.position t (events E r cs)) free
                  (steady-IsFile object r cs steady (subst (λ s. IsFair E object s.0 cs) e fair)),
            ))
    | inr (aim, busy) ↦
        let e = poll_complete-some E r aim busy in
        subst (λ s. IsFile E object r.position r.seek_to (was_completed s.1 ∷ events E s.0 cs))
          (sym e)
          (subst
            (λ t. IsFile E object r.position t (was_completed aim ∷ events E (moved_to r aim) cs))
            (sym busy)
            (
              refl,
              steady-IsFile object (moved_to r aim) cs
                  (moved_to-IsSteady E object r aim steady busy)
                  (subst (λ s. IsFair E object s.0 cs) e fair),
            ))
  ]

  new-IsSteady :
      (object bucket_name key : Bytes)
      → length object < u64_mod
      → IsSteady E object (new bucket_name key (length object))
  unfolding new
  new-IsSteady object bucket_name key fits = record {
    opened = record {
      whole = refl;
      fits = fits;
      offset = omega arith;
      left = At-nil object 0;
      left_inside = inl refl;
      flight = inl refl;
    };
    seeking = inl refl;
  }

  -- A new reader is a file that is open at its start. Whatever it is asked to do, in whatever order, its
  -- caller sees what the file would show: each read hands out the bytes at the position, no more than
  -- fit, and moves by as many; a seek that is accepted moves to exactly the offset it means, one that
  -- is refused moves nothing, and the position is always the one that is reported. Reads may come back
  -- unfinished, short, long or failed; the storage is assumed to answer a range with the bytes of that
  -- range where the length is right, a seek that was started to be completed before the next read, and
  -- the object and the offset of a seek from the start to be below 2^64.
  pub new-IsFile :
      (object bucket_name key : Bytes) (cs : List (ReaderCall E))
      → length object < u64_mod
      → IsFair E object (new bucket_name key (length object)) cs
      → IsFile E object 0 none (events E (new bucket_name key (length object)) cs)
  unfolding new
  new-IsFile object bucket_name key cs fits fair =
      steady-IsFile object (new bucket_name key (length object)) cs
        (new-IsSteady object bucket_name key fits) fair
