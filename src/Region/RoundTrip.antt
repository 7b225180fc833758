-- ===== src/Region/RoundTrip.antt =====
-- A region of src/region.rs goes over the wire as it was written.
use my_s.Base.{
  ◌≡◌, refl, sym, ap, ◌∙◌, inl, inr, List, [], ◌∷◌, Bytes, bytes_eq, bytes_eq_iff, match_str,
  Bool-cases, if-true, if-false,
}
use my_s.Region.{S3Region, other, as_str, arms, from_str, keep_owned, from_string}

-- Every arm names its region as the region names itself.
abbrev Agree : List (Bytes × S3Region) → Type 0
Agree [] = Unit {0}
Agree ((lit, region) ∷ rest) = (as_str region ≡ lit) × Agree rest

arms-Agree : Agree arms
unfolding as_str
arms-Agree = (
  refl,
  (
    refl,
    (
      refl,
      (
        refl,
        (
          refl,
          (
            refl,
            (
              refl,
              (
                refl,
                (
                  refl,
                  (
                    refl,
                    (
                      refl,
                      (
                        refl,
                        (
                          refl,
                          (
                            refl,
                            (
                              refl,
                              (
                                refl,
                                (
                                  refl,
                                  (
                                    refl,
                                    (
                                      refl,
                                      (
                                        refl,
                                        (
                                          refl,
                                          (
                                            refl,
                                            (
                                              refl,
                                              (
                                                refl,
                                                (
                                                  refl,
                                                  (
                                                    refl,
                                                    (
                                                      refl,
                                                      (
                                                        refl,
                                                        (
                                                          refl,
                                                          (
                                                            refl,
                                                            (
                                                            refl,
                                                            (
                                                            refl,
                                                            (
                                                            refl,
                                                            (refl, (refl, (refl, (refl, tt)))),
                                                            ),
                                                            ),
                                                            ),
                                                          ),
                                                        ),
                                                      ),
                                                    ),
                                                  ),
                                                ),
                                              ),
                                            ),
                                          ),
                                        ),
                                      ),
                                    ),
                                  ),
                                ),
                              ),
                            ),
                          ),
                        ),
                      ),
                    ),
                  ),
                ),
              ),
            ),
          ),
        ),
      ),
    ),
  ),
)

as_str-match_str :
    (table : List (Bytes × S3Region)) (src : Bytes) (fallback : S3Region)
    → Agree table
    → as_str fallback ≡ src
    → as_str (match_str src table fallback) ≡ src
unfolding match_str
as_str-match_str [] src fallback agree base = base
as_str-match_str ((lit, region) ∷ rest) src fallback (named, agree) base =
    elim (Bool-cases (bytes_eq src lit)) [
      | inl hit ↦ rw (if-true _ _ hit) (named ∙ sym ((bytes_eq_iff src lit).0 hit))
      | inr miss ↦ rw (if-false _ _ miss) (as_str-match_str rest src fallback agree base)
    ]

read_back : (region : S3Region) (src : Bytes) → as_str region ≡ src → keep_owned src region ≡ region
unfolding as_str keep_owned
read_back (other text) src e = ap other (sym e)
read_back _ src e = refl

-- Any configured value, in the catalogue or not, comes back out of `as_str` byte for byte, and
-- `From<String>` reads it as `from_str` does.
pub as_str-from_str :
    (src : Bytes) → (as_str (from_str src) ≡ src) × (from_string src ≡ from_str src)
unfolding from_string
as_str-from_str src = (named, read_back (from_str src) src named)
  where
    named : as_str (from_str src) ≡ src
    named =
        unfold from_str in as_str-match_str arms src (other src) arms-Agree (unfold as_str in refl)

-- A region of the catalogue.
abbrev pub IsNamed : S3Region → Type 0
IsNamed (other text) = ⊥
IsNamed _ = Unit {0}

-- Every region of the catalogue is read back from its own name.
pub from_str-as_str : (region : S3Region) → IsNamed region → from_str (as_str region) ≡ region
unfolding from_str as_str
from_str-as_str (other text) h = absurd h
from_str-as_str _ h = refl
