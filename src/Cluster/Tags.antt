-- ===== src/Cluster/Tags.antt =====
-- The label of a counter, in controllers/kubeflow.org/monitoring.go.
use Prim.Native.Char.{Char, len_utf8}
use Prim.Native.Nat.{compare, Ordering}
use Prim.Native.String.{[], ◌∷◌, len, slice, fits}
use Prim.Native.String.slice
use Prim.Native.String.len
use native.Mathlib.Omega.{compare-lt, compare-eq, compare-gt}
use text.Mathlib.TextBridge.{IsPrefix}
use text.Mathlib.TextEquality.{slice-prefix}
use kubeflow_profile_control.Prelude.{
  ℕ, zero, String, Bool, true, ◌&&◌, ◌=?◌, ◌≡◌, ◌⊎◌, ◌≤◌, ◌<◌, ◌-◌, refl, arith,
}
use kubeflow_profile_control.Cluster.{truncate_tag}

abbrev pub is_ascii : String → Bool
is_ascii [] = true
is_ascii (c ∷ s) = (len_utf8 c =? 1) && is_ascii s

fits-len-ascii :
    (o : Ordering) (c : Char) (r : String) (k : ℕ)
    → compare (len_utf8 c) k ≡ o
    → len_utf8 c ≡ 1
    → len r ≡ k - len_utf8 c
    → len (fits o c r) ≡ k
fits-len-ascii Ordering.lt c r k e one h =
    let less = compare-lt _ _ e in rw (len.cons c r) (omega arith)
fits-len-ascii Ordering.eq c r k e one h =
    let same = compare-eq _ _ e in rw (len.cons c r) (omega arith)
fits-len-ascii Ordering.gt c r k e one h = let more = compare-gt _ _ e in omega arith

slice-len-ascii : (s : String) (k : ℕ) → is_ascii s ≡ true → k ≤ len s → len (slice s zero k) ≡ k
slice-len-ascii [] k ascii h = rw (slice.nil zero k) (omega arith)
slice-len-ascii (c ∷ s) k ascii h =
    let one : len_utf8 c ≡ 1 = ground arith in
    let shorter : k - 1 ≤ len s = let length = len.cons c s in omega arith in
    let rest = slice-len-ascii s (k - 1) (ground arith) shorter in
    rw (slice.cons-zero c s k) (
      fits-len-ascii (compare (len_utf8 c) k) c (slice s zero (k - len_utf8 c)) k refl one
        (rw one rest))

-- The label of a counter is the kind that it is for if that has at most 30 bytes, and otherwise the
-- kind's first 30 bytes; every character of the kind is one byte.
pub truncate_tag-bounds :
    (kind : String)
    → is_ascii kind ≡ true
    → ((len kind ≤ 30) × (truncate_tag kind ≡ kind))
      ⊎ ((30 < len kind) × (len (truncate_tag kind) ≡ 30) × IsPrefix (truncate_tag kind) kind)
unfolding truncate_tag
truncate_tag-bounds kind ascii = ground (arith, slice-len-ascii kind 30 ascii, slice-prefix kind 30)
