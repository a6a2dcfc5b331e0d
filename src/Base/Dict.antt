-- ===== src/Base/Dict.antt =====
-- Maps with text keys, `std::unordered_map` seen through its interface: an association list in
-- which a key stands at most once when it was built by these operations.
use mathlib.Core.Path.{◌≡◌, refl}
use mathlib.Core.Bool.{false}
use mathlib.Core.Option.{Option, none, some}
use mathlib.Core.List.{List, [], ◌∷◌, ◌++◌}
use native.Mathlib.Omega.{arith}
use praas.Base.Tests.{if◌then◌else◌}
use praas.Base.Text.{Text, text_eq, text_eq_iff, text_eq_refl}

abbrev pub Dict {ℓ} : Type ℓ → Type ℓ
Dict V = List (Text × V)

module _ {ℓ} {V : Type ℓ} where
  unfoldable pub find : Text → Dict V → Option V
  find k [] = none
  find k ((j, v) ∷ d) = if text_eq j k then some v else find k d

  -- `insert_or_assign`: an old entry is replaced where it stands, a new one goes to the end.
  unfoldable pub assign : Text → V → Dict V → Dict V
  assign k v [] = (k, v) ∷ []
  assign k v ((j, w) ∷ d) = if text_eq j k then (j, v) ∷ d else (j, w) ∷ assign k v d

  unfoldable pub erase : Text → Dict V → Dict V
  erase k [] = []
  erase k ((j, w) ∷ d) = if text_eq j k then erase k d else (j, w) ∷ erase k d

  pub find-assign :
      (k j : Text) (v : V) (d : Dict V)
      → find j (assign k v d) ≡ (if text_eq k j then some v else find j d)
  unfolding find assign
  find-assign k j v [] = refl
  find-assign k j v ((i, w) ∷ d) =
      ground (arith, text_eq_iff k j, text_eq_iff i k, text_eq_iff i j, find-assign k j v d)

  pub find-erase :
      (k j : Text) (d : Dict V) → find j (erase k d) ≡ (if text_eq k j then none else find j d)
  unfolding find erase
  find-erase k j [] = ground arith
  find-erase k j ((i, w) ∷ d) =
      ground (arith, text_eq_iff k j, text_eq_iff i k, text_eq_iff i j, find-erase k j d)

  pub find-assign_self : (k : Text) (v : V) (d : Dict V) → find k (assign k v d) ≡ some v
  find-assign_self k v d = simp (find-assign, text_eq_refl)

  pub find-erase_self : (k : Text) (d : Dict V) → find k (erase k d) ≡ none
  find-erase_self k d = simp (find-erase, text_eq_refl)

  -- An entry that came and went leaves no trace.
  pub find-erase-assign :
      (k j : Text) (v : V) (d : Dict V)
      → find k d ≡ none
      → find j (erase k (assign k v d)) ≡ find j d
  find-erase-assign k j v d h =
      ground (arith, text_eq_iff k j, find-erase k j (assign k v d), find-assign k j v d)

  pub find-append :
      (k j : Text) (v : V) (d : Dict V)
      → find j d ≡ none
      → find j (d ++ (k, v) ∷ []) ≡ (if text_eq k j then some v else none)
  unfolding find
  find-append k j v [] h = refl
  find-append k j v ((i, w) ∷ d) h = ground (arith, find-append k j v d)

  pub find-append_ne :
      (k j : Text) (v : V) (d : Dict V) → text_eq k j ≡ false → find j (d ++ (k, v) ∷ []) ≡ find j d
  unfolding find
  find-append_ne k j v [] h = ground arith
  find-append_ne k j v ((i, w) ∷ d) h = ground (arith, find-append_ne k j v d h)
