-- ===== src/Prelude/Text/Laws.antt =====
-- Laws of the operations on texts.
use Prim.Native.Nat.{ℕ}
use mathlib.Core.Path.{◌≡◌, refl}
use mathlib.Core.Logic.{◌≢◌}
use mathlib.Core.Bool.{true, false}
use mathlib.Core.List.{List, [], ◌∷◌, ◌++◌, append_assoc}
use mathlib.Core.Option.{none, some}
use native.Mathlib.Omega.{arith}
use enjambre_worker.Prelude.Lists.{All}
use enjambre_worker.Prelude.Text.{
  Text, cons_head, is_whitespace, trim_start, trim_end, trim, split, join, strip_prefix,
  starts_with, Lacks,
}

-- A part without the separator, followed by one, is the first part.
pub split-append : (sep : ℕ) (p s : Text) → Lacks sep p → split sep (p ++ sep ∷ s) ≡ p ∷ split sep s
unfolding split
split-append sep [] s h = ground arith
split-append sep (c ∷ p) s (hc, hp) = ground (arith, split-append sep p s hp)

pub split_whole : (sep : ℕ) (p : Text) → Lacks sep p → split sep p ≡ p ∷ []
unfolding split
split_whole sep [] h = refl
split_whole sep (c ∷ p) (hc, hp) = ground (arith, split_whole sep p hp)

pub split-ne-nil : (sep : ℕ) (s : Text) → split sep s ≢ []
unfolding split
split-ne-nil sep [] = λ e. cc
split-ne-nil sep (c ∷ s) = ground arith

cons_head-append :
    (c : ℕ) (ps qs : List Text) → ps ≢ [] → cons_head c (ps ++ qs) ≡ cons_head c ps ++ qs
cons_head-append c [] qs n = absurd (n refl)
cons_head-append c (p ∷ ps) qs n = refl

-- The parts of two texts with a separator between are the parts of both.
pub split-split : (sep : ℕ) (s t : Text) → split sep (s ++ sep ∷ t) ≡ split sep s ++ split sep t
unfolding split
split-split sep [] t = ground arith
split-split sep (c ∷ s) t = ground (
  arith,
  split-split sep s t,
  cons_head-append c (split sep s) (split sep t) (split-ne-nil sep s),
)

join-cons_head :
    (sep c : ℕ) (ps : List Text) → ps ≢ [] → join sep (cons_head c ps) ≡ c ∷ join sep ps
unfolding join
join-cons_head sep c [] n = absurd (n refl)
join-cons_head sep c (p ∷ []) n = refl
join-cons_head sep c (p ∷ q ∷ ps) n = refl

join-nil_head : (sep : ℕ) (ps : List Text) → ps ≢ [] → join sep ([] ∷ ps) ≡ sep ∷ join sep ps
unfolding join
join-nil_head sep [] n = absurd (n refl)
join-nil_head sep (p ∷ ps) n = refl

pub join-split : (sep : ℕ) (s : Text) → join sep (split sep s) ≡ s
unfolding split
join-split sep [] = unfold join in refl
join-split sep (c ∷ s) = ground (
  arith,
  join-split sep s,
  join-cons_head sep c (split sep s) (split-ne-nil sep s),
  join-nil_head sep (split sep s) (split-ne-nil sep s),
)

pub strip_prefix-append : (p s : Text) → strip_prefix p (p ++ s) ≡ some s
unfolding strip_prefix
strip_prefix-append [] s = refl
strip_prefix-append (c ∷ p) s = ground (arith, strip_prefix-append p s)

strip_prefix_sound : (p s : Text) {r : Text} → strip_prefix p s ≡ some r → s ≡ p ++ r
unfolding strip_prefix
strip_prefix_sound [] s h = ground arith
strip_prefix_sound (c ∷ p) [] h = cc
strip_prefix_sound (c ∷ p) (d ∷ s) {r} h = ground (arith, strip_prefix_sound p s {r = r})

starts_with-append : (p s : Text) → starts_with p (p ++ s) ≡ true
unfolding starts_with
starts_with-append [] s = refl
starts_with-append (c ∷ p) s = ground (arith, starts_with-append p s)

-- Where a text does not start with a prefix, `strip_prefix` gives no rest.
strip_prefix-starts_with : (p s : Text) → starts_with p s ≡ false → strip_prefix p s ≡ none
unfolding strip_prefix starts_with
strip_prefix-starts_with [] s h = cc
strip_prefix-starts_with (c ∷ p) [] h = refl
strip_prefix-starts_with (c ∷ p) (d ∷ s) h = ground (arith, strip_prefix-starts_with p s)

abbrev pub Solid : Text → Type 0
Solid = All (λ c. is_whitespace c ≡ false)

abbrev pub Blank : Text → Type 0
Blank = All (λ c. is_whitespace c ≡ true)

trim_end-Blank : (s : Text) → Blank s → trim_end s ≡ []
unfolding trim_end
trim_end-Blank [] h = refl
trim_end-Blank (c ∷ s) (hc, hs) = ground (arith, trim_end-Blank s hs)

trim_end-append-Blank : (s w : Text) → Blank w → trim_end (s ++ w) ≡ trim_end s
unfolding trim_end
trim_end-append-Blank [] w h = trim_end-Blank w h
trim_end-append-Blank (c ∷ s) w h = ground (arith, trim_end-append-Blank s w h)

trim_end-Solid : (s : Text) → Solid s → trim_end s ≡ s
unfolding trim_end
trim_end-Solid [] h = refl
trim_end-Solid (c ∷ s) (hc, hs) = ground (arith, trim_end-Solid s hs)

-- What stands before a text that ends in no blank is kept.
trim_end-append : (s t : Text) → t ≢ [] → trim_end t ≡ t → trim_end (s ++ t) ≡ s ++ t
unfolding trim_end
trim_end-append [] t n h = h
trim_end-append (c ∷ s) [] n h = absurd (n refl)
trim_end-append (c ∷ []) (d ∷ t) n h = rw (h, trim_end) (ground arith)
trim_end-append (c ∷ b ∷ s) (d ∷ t) n h =
    rw (trim_end-append (b ∷ s) (d ∷ t) n h, trim_end) (ground arith)

pub trim_lem : (s : Text) → trim s ≡ trim_start (trim_end s)
unfolding trim
trim_lem s = refl

-- Nothing is cut from a part that holds no blank.
pub trim_end-append_Solid : (s t : Text) → Solid s → trim_end (s ++ t) ≡ s ++ trim_end t
unfolding trim_end
trim_end-append_Solid [] t h = refl
trim_end-append_Solid (c ∷ s) t (hc, hs) = ground (arith, trim_end-append_Solid s t hs)

-- A line that starts and ends in no blank comes out of `trim` as it was, without its line end.
pub trim_line :
    (c : ℕ) (s t w : Text)
    → is_whitespace c ≡ false
    → t ≢ []
    → Solid t
    → Blank w
    → trim (c ∷ ((s ++ t) ++ w)) ≡ c ∷ (s ++ t)
unfolding trim_start
trim_line c s t w hc n ht hw =
    let e = trim_end-append-Blank (c ∷ (s ++ t)) w hw in
    let f = trim_end-append (c ∷ s) t n (trim_end-Solid t ht) in
    rw (trim_lem (c ∷ ((s ++ t) ++ w)), e, f) (ground arith)

-- A text that starts and ends in no blank comes out of `trim` as it was.
pub trim_bare :
    (c : ℕ) (s t : Text)
    → is_whitespace c ≡ false
    → t ≢ []
    → Solid t
    → trim (c ∷ (s ++ t)) ≡ c ∷ (s ++ t)
unfolding trim_start
trim_bare c s t hc n ht =
    let f = trim_end-append (c ∷ s) t n (trim_end-Solid t ht) in
    rw (trim_lem (c ∷ (s ++ t)), f) (ground arith)

trim_start-Solid : (s : Text) → Solid s → trim_start s ≡ s
unfolding trim_start
trim_start-Solid [] h = refl
trim_start-Solid (c ∷ s) (hc, hs) = ground arith

pub trim-Solid : (s : Text) → Solid s → trim s ≡ s
trim-Solid s h = rw (trim_lem s, trim_end-Solid s h) (trim_start-Solid s h)

-- Parts with a separator behind each.
unfoldable pub terminated : ℕ → List Text → Text
terminated sep [] = []
terminated sep (p ∷ ps) = p ++ sep ∷ terminated sep ps

split-terminated :
    (sep : ℕ) (ps : List Text) (t : Text)
    → All (Lacks sep) ps
    → split sep (terminated sep ps ++ t) ≡ ps ++ split sep t
unfolding terminated
split-terminated sep [] t h = refl
split-terminated sep (p ∷ ps) t (hp, hps) =
    rw (append_assoc, split-append sep p (terminated sep ps ++ t) hp, split-terminated sep ps t hps)

-- A line of parts, written with a line end, is cut into its parts again after `trim`, if no part
-- holds the separator, the first begins with no blank and the last is not empty and holds none.
pub split-trim_line :
    (sep c : ℕ) (p : Text) (ps : List Text) (t w : Text)
    → is_whitespace c ≡ false
    → All (Lacks sep) ((c ∷ p) ∷ ps)
    → Lacks sep t
    → t ≢ []
    → Solid t
    → Blank w
    → split sep (trim (terminated sep ((c ∷ p) ∷ ps) ++ (t ++ w))) ≡ ((c ∷ p) ∷ ps) ++ t ∷ []
split-trim_line sep c p ps t w hc hps ht n solid blank =
    let body : Text = p ++ sep ∷ terminated sep ps in
    let shape : terminated sep ((c ∷ p) ∷ ps) ++ (t ++ w) ≡ c ∷ ((body ++ t) ++ w) =
      unfold terminated in simp append_assoc in
    let back : c ∷ (body ++ t) ≡ terminated sep ((c ∷ p) ∷ ps) ++ t = unfold terminated in refl in
    rw
      (
        shape,
        trim_line c body t w hc n solid blank,
        back,
        split-terminated sep ((c ∷ p) ∷ ps) t hps,
      )
      (rw (split_whole sep t ht))
