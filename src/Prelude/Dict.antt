-- ===== src/Prelude/Dict.antt =====
-- A JavaScript `Map` with string keys, in insertion order: `set` on a present key keeps its place.
use Prim.Native.String.{String}
use mathlib.Core.Path.{◌≡◌, refl, subst, sym, ◌∙◌}
use mathlib.Core.Logic.{◌≢◌, inl, inr}
use mathlib.Core.List.{List, [], ◌∷◌}
use mathlib.Core.Option.{Option, none, some, some-injective}
use mathlib.Core.Bool.{false≢true}
use native.Mathlib.Omega.{arith}
use text.Mathlib.TextEquality.{eq_iff}
use text.Mathlib.TextPositions.{eq_refl}
use mentorio.Prelude.Tests.{str_eq, Bool-cases, if◌then◌else◌}

abbrev pub Dict {ℓ} : Type ℓ → Type ℓ
Dict V = List (String × V)

module _ {ℓ} {V : Type ℓ} where
  unfoldable pub get : String → Dict V → Option V
  get k [] = none
  get k ((j, v) ∷ m) = if str_eq j k then some v else get k m

  unfoldable pub put : String → V → Dict V → Dict V
  put k v [] = (k, v) ∷ []
  put k v ((j, w) ∷ m) = if str_eq j k then (k, v) ∷ m else (j, w) ∷ put k v m

  pub get-put :
      (k j : String) (v : V) (m : Dict V)
      → get j (put k v m) ≡ (if str_eq k j then some v else get j m)
  unfolding get put
  get-put k j v [] = refl
  get-put k j v ((i, w) ∷ m) = ground (arith, eq_iff k j, eq_iff i k, eq_iff i j, get-put k j v m)

  pub get-put_self : (k : String) (v : V) (m : Dict V) → get k (put k v m) ≡ some v
  get-put_self k v m = rw (get-put k k v m, eq_refl k)

  pub get-put_ne : (k j : String) (v : V) (m : Dict V) → k ≢ j → get j (put k v m) ≡ get j m
  get-put_ne k j v m ne = elim (Bool-cases (str_eq k j)) [
    | inl here ↦ absurd (ne ((eq_iff k j).0 here))
    | inr there ↦ rw (get-put k j v m, there)
  ]

  abbrev pub HasKey : String → Dict V → Type ℓ
  HasKey k m = (v : V) × (get k m ≡ some v)

  pub HasKey-put : (k j : String) (v : V) (m : Dict V) → HasKey k m → HasKey k (put j v m)
  HasKey-put k j v m (w, found) = elim (Bool-cases (str_eq j k)) [
    | inl here ↦ (v, rw (get-put j k v m, here))
    | inr there ↦ (w, rw (get-put j k v m, there) found)
  ]

  -- What holds of every entry.
  module _ {κ} (P : String → V → Type κ) where
    abbrev pub Entries : Dict V → Type κ
    Entries [] = Unit
    Entries ((k, v) ∷ m) = P k v × Entries m

    pub Entries-put : (k : String) (v : V) (m : Dict V) → P k v → Entries m → Entries (put k v m)
    unfolding put
    Entries-put k v [] p h = (p, tt)
    Entries-put k v ((j, w) ∷ m) p (q, h) = ground (arith, Entries-put k v m p h)

    pub get-Entries : (k : String) (m : Dict V) (v : V) → Entries m → get k m ≡ some v → P k v
    unfolding get
    get-Entries k [] v h e = cc
    get-Entries k ((j, w) ∷ m) v (q, h) e = elim (Bool-cases (str_eq j k)) [
      | inl here ↦
          subst (P k) (some-injective w v (rw (here, get) at e))
            (subst (λ i. P i w) ((eq_iff j k).0 here) q)
      | inr there ↦ get-Entries k m v h (rw (there, get) at e)
    ]

  pub Entries-map {κ} :
      (P Q : String → V → Type κ)
      → ((k : String) (v : V) → P k v → Q k v)
      → (m : Dict V) → Entries P m
      → Entries Q m
  Entries-map P Q f [] h = tt
  Entries-map P Q f ((k, v) ∷ m) (p, h) = (f k v p, Entries-map P Q f m h)

  -- A relation between the values under any two different keys.
  module _ {κ} (R : V → V → Type κ) where
    abbrev pub ValuePairs : Dict V → Type κ
    ValuePairs [] = Unit
    ValuePairs ((k, v) ∷ m) = Entries (λ _ w. R v w) m × ValuePairs m

    module _ (R_symm : (v w : V) → R v w → R w v) where
      Entries-symm : (v : V) (m : Dict V) → Entries (λ _ w. R w v) m → Entries (λ _ w. R v w) m
      Entries-symm v [] h = tt
      Entries-symm v ((j, w) ∷ m) (r, h) = (R_symm w v r, Entries-symm v m h)

      pub ValuePairs-put :
          (k : String) (v : V) (m : Dict V)
          → Entries (λ _ w. R w v) m
          → ValuePairs m
          → ValuePairs (put k v m)
      unfolding put
      ValuePairs-put k v [] h p = (tt, tt)
      ValuePairs-put k v ((j, w) ∷ m) (r, h) (q, p) = elim (Bool-cases (str_eq j k)) [
        | inl here ↦ rw (here, put) (Entries-symm v m h, p)
        | inr there ↦
            rw (there, put) (Entries-put (λ _ u. R w u) k v m r q, ValuePairs-put k v m h p)
      ]

      pub get-ValuePairs :
          (k j : String) (m : Dict V) (v w : V)
          → ValuePairs m
          → k ≢ j
          → get k m ≡ some v
          → get j m ≡ some w
          → R v w
      unfolding get
      get-ValuePairs k j [] v w p ne e f = cc
      get-ValuePairs k j ((i, u) ∷ m) v w (q, p) ne e f = elim (Bool-cases (str_eq i k)) [
        | inl at_k ↦ elim (Bool-cases (str_eq i j)) [
          | inl at_j ↦ absurd (ne (sym ((eq_iff i k).0 at_k) ∙ (eq_iff i j).0 at_j))
          | inr off_j ↦
              subst (λ x. R x w) (some-injective u v (rw (at_k, get) at e))
                (get-Entries (λ _ x. R u x) j m w q (rw (off_j, get) at f))
        ]
        | inr off_k ↦ elim (Bool-cases (str_eq i j)) [
          | inl at_j ↦ R_symm w v (
              subst (λ x. R x v) (some-injective u w (rw (at_j, get) at f))
                (get-Entries (λ _ x. R u x) k m v q (rw (off_k, get) at e)))
          | inr off_j ↦ get-ValuePairs k j m v w p ne (rw (off_k, get) at e) (rw (off_j, get) at f)
        ]
      ]

-- No key stands twice.
module _ {ℓ} {V : Type ℓ} where
  abbrev pub Absent : String → Dict V → Type 0
  Absent k [] = Unit
  Absent k ((j, v) ∷ m) = (j ≢ k) × Absent k m

  abbrev pub IsDistinct : Dict V → Type 0
  IsDistinct [] = Unit
  IsDistinct ((k, v) ∷ m) = Absent k m × IsDistinct m

  Absent-put : (k j : String) (v : V) (m : Dict V) → j ≢ k → Absent k m → Absent k (put j v m)
  unfolding put
  Absent-put k j v [] ne h = (ne, tt)
  Absent-put k j v ((i, w) ∷ m) ne (ni, h) = elim (Bool-cases (str_eq i j)) [
    | inl here ↦ rw here (ne, h)
    | inr there ↦ rw there (ni, Absent-put k j v m ne h)
  ]

  pub put-IsDistinct : (k : String) (v : V) (m : Dict V) → IsDistinct m → IsDistinct (put k v m)
  unfolding put
  put-IsDistinct k v [] h = (tt, tt)
  put-IsDistinct k v ((j, w) ∷ m) (a, h) = elim (Bool-cases (str_eq j k)) [
    | inl here ↦ rw here (subst (λ i. Absent i m) ((eq_iff j k).0 here) a, h)
    | inr there ↦ rw there (
      Absent-put j k v m (λ e. false≢true (sym there ∙ (eq_iff j k).1 (sym e))) a,
      put-IsDistinct k v m h,
    )
  ]

  pub get-Absent : (k : String) (m : Dict V) → Absent k m → get k m ≡ none
  unfolding get
  get-Absent k [] h = refl
  get-Absent k ((j, v) ∷ m) (ne, h) = elim (Bool-cases (str_eq j k)) [
    | inl here ↦ absurd (ne ((eq_iff j k).0 here))
    | inr there ↦ rw there (get-Absent k m h)
  ]
