-- ===== src/Errors/Chain.antt =====
-- The walk over the causes of an exception.
use haniel.Prelude.{
  ℕ, ◌+◌, ◌≡◌, refl, ap, not, Bool, true, ◌||◌, ◌&&◌, List, [], ◌∷◌, arith, same_iff, eq_iff,
  eq_refl,
}
use haniel.Errors.{
  Exn, Link, Class, exn, linked, nothing, plain, stable, deployment, verification, size,
  recovery_of, cause_of, same_class, same_exn, same_link, is_seen,
}

total : List Exn → ℕ
total [] = 0
total (e ∷ es) = size e + total es

same_class_self : (c : Class) → same_class c c ≡ true
same_class_self plain = refl
same_class_self stable = refl
same_class_self deployment = refl
same_class_self verification = refl

same_class_sound : (c d : Class) → same_class c d ≡ true → c ≡ d
same_class_sound plain plain h = refl
same_class_sound stable stable h = refl
same_class_sound deployment deployment h = refl
same_class_sound verification verification h = refl
same_class_sound c d h = ground arith

mutual
  unfolding same_exn

  self : (e : Exn) → same_exn e e ≡ true
  self (exn c k m r u) =
      ground (arith, same_class_self c, same_iff k k, eq_refl m, self_link r, self_link u)

  self_link : (l : Link) → same_link l l ≡ true
  self_link nothing = refl
  self_link (linked e) = self e

mutual
  unfolding same_exn

  sound : (x y : Exn) → same_exn x y ≡ true → x ≡ y
  sound (exn c k m r u) (exn c' k' m' r' u') h =
      let a = same_class_sound c c' (ground (arith, h)) in
      let b = (same_iff k k').0 (ground (arith, h)) in
      let d = (eq_iff m m').0 (ground (arith, h)) in
      let x = sound_link r r' (ground (arith, h)) in
      let y = sound_link u u' (ground (arith, h)) in λ i. exn (a i) (b i) (d i) (x i) (y i)

  sound_link : (x y : Link) → same_link x y ≡ true → x ≡ y
  sound_link nothing nothing h = refl
  sound_link nothing (linked y) h = cc
  sound_link (linked x) nothing h = cc
  sound_link (linked x) (linked y) h = ap linked (sound x y h)

-- An exception that another one has as its recovery error or its cause.
pub data Child (e : Exn) : Exn → Type 0 where
  as_recovery : {x : Exn} → recovery_of e ≡ linked x → Child e x
  as_cause : {x : Exn} → cause_of e ≡ linked x → Child e x

-- The exceptions that can be reached from one.
pub data Part (e : Exn) : Exn → Type 0 where
  itself : Part e e
  below : {x y : Exn} → Part e x → Child x y → Part e y

-- The exceptions seen have their children among those seen and those in the queue.
abbrev IsClosed : (seen pending : List Exn) → Type 0
IsClosed seen pending =
    (x y : Exn) → Child x y → is_seen x seen ≡ true → (is_seen y seen || is_seen y pending) ≡ true

-- What the walk has yielded at its end: the queue is in it, and it has the children of what is in it.
record Walked (seen pending yielded : List Exn) : Type 0 where
  queued :
      (y : Exn)
      → (is_seen y seen || is_seen y pending) ≡ true
      → (is_seen y seen || is_seen y yielded) ≡ true
  closed :
      (x y : Exn)
      → Child x y
      → (is_seen x seen || is_seen x yielded) ≡ true
      → (is_seen y seen || is_seen y yielded) ≡ true

-- No exception stands twice in a list.
unfoldable pub is_distinct : List Exn → Bool
is_distinct [] = true
is_distinct (e ∷ es) = not (is_seen e es) && is_distinct es
