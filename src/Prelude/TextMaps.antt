-- ===== src/Prelude/TextMaps.antt =====
-- `unordered_map<string, string>` as an association list in the order of its iteration.
use mathlib.Core.Path.{◌≡◌, refl, sym, ap}
use mathlib.Core.Logic.{◌≢◌}
use mathlib.Core.Option.{Option, none, some}
use mathlib.Core.List.{List, [], ◌∷◌, ◌++◌}
use projects_cpp.Prelude.Tests.{if◌then◌else◌}
use projects_cpp.Prelude.Lists.{All}
use projects_cpp.Prelude.Text.{Text, text_eq, text_eq-ne}

abbrev pub texts : List (Text × Text) → List Text
texts [] = []
texts ((k, v) ∷ m) = k ∷ texts m

-- `m.count(k)`, `m[k]`
abbrev pub find_text : Text → List (Text × Text) → Option Text
find_text k [] = none
find_text k ((j, v) ∷ m) = if text_eq j k then some v else find_text k m

-- `m[k] = v`
abbrev pub put_text : Text → Text → List (Text × Text) → List (Text × Text)
put_text k v [] = (k, v) ∷ []
put_text k v ((j, w) ∷ m) = if text_eq j k then (j, v) ∷ m else (j, w) ∷ put_text k v m

-- No key stands twice.
abbrev pub DistinctTexts : List Text → Type 0
DistinctTexts [] = Unit
DistinctTexts (k ∷ ks) = All (λ j. j ≢ k) ks × DistinctTexts ks

-- A key that is not there is put at the end.
pub put_text-absent :
    (k v : Text) (m : List (Text × Text))
    → All (λ j. j ≢ k) (texts m)
    → put_text k v m ≡ m ++ (k, v) ∷ []
put_text-absent k v [] h = refl
put_text-absent k v ((j, w) ∷ m) h =
    rw (text_eq-ne j k h.0) (ap (λ l. (j, w) ∷ l) (put_text-absent k v m h.1))

texts-snoc :
    (P : Text → Type 0) (m : List (Text × Text)) (k v : Text)
    → All P (texts m)
    → P k
    → All P (texts (m ++ (k, v) ∷ []))
texts-snoc P [] k v h p = (p, tt)
texts-snoc P ((j, w) ∷ m) k v h p = (h.0, texts-snoc P m k v h.1 p)

-- None of the keys is one of the map.
abbrev pub AreNewTexts : List (Text × Text) → List Text → Type 0
AreNewTexts m ks = All (λ k. All (λ j. j ≢ k) (texts m)) ks

pub AreNewTexts-snoc :
    (m : List (Text × Text)) (k v : Text) (ks : List Text)
    → AreNewTexts m ks
    → All (λ j. j ≢ k) ks
    → AreNewTexts (m ++ (k, v) ∷ []) ks
AreNewTexts-snoc m k v [] h d = tt
AreNewTexts-snoc m k v (i ∷ ks) h d =
    (texts-snoc (λ j. j ≢ i) m k v h.0 (λ e. d.0 (sym e)), AreNewTexts-snoc m k v ks h.1 d.1)
