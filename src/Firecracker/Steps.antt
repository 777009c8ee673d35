-- ===== src/Firecracker/Steps.antt =====
-- How the operations of crates/ferrobox-node/src/firecracker_runtime.rs are put together: steps that
-- ask the machine, change the state and may fail. A definition of its own for each way to build one
-- lets a proof follow the way an operation is built.
pub mod Calm
use ferrobox.Core.Error.{RuntimeError}
use ferrobox.Firecracker.Host.{Call, FirecrackerRuntime, Host, Reply, is_done}
use ferrobox.Prelude.{
  ℕ, zero, suc, ◌+◌, ◌-◌, ◌*◌, ◌/◌, ◌%◌, ◌^◌, ◌≤◌, ◌<◌, min, ◌≡◌, refl, sym, ap, ◌∙◌, ◌≢◌, ◌↔◌, ◌⊎◌,
  inl, inr, Bool, true, false, not, ◌&&◌, ◌||◌, Option, none, some, List, [], ◌∷◌, ◌++◌, map, arith,
  ltb, leb, ◌==◌, in_range, if◌then◌else◌, ==_iff, ltb_iff, leb_iff, Bool-cases, Option-cases,
  length, is_empty, is_empty-eq-false_iff, all, any, get_elem?, get_or, take, drop, length-append,
  length-take, length-drop, drop_add, take-append-drop, take_of_length-le, All, All-append, all_iff,
  any-eq-false_iff, all-append, any-append, Result, reject_if, ok_or, map_err, is_ok, >>=-eq-ok,
  Result-cases, Text, Bytes, codes, utf8_char, bytes, byte_len, text_eq, text_eq_iff,
  is_ascii_alphanumeric, is_control, is_whitespace, trim_start_while, trim, strip_prefix,
  starts_with, push_front, split, to_ascii_lower, all-bytes, bytes_of_ascii, has_nul,
  has_nul-eq-false_iff, strip_prefix-append, strip_prefix-eq-some, Table, lookup, remove, insert,
  lookup-remove, lookup-insert, ok, err,
}
use ferrobox.Prelude.Exec.{Exec, continue}

abbrev pub Firecracker : Type 0 → Type 0
Firecracker A = Exec FirecrackerRuntime RuntimeError A

module _ {A : Type 0} where
  unfoldable pub pure : A → Firecracker A
  pure a s = (ok a, s)

  unfoldable pub raise : RuntimeError → Firecracker A
  raise e s = (err e, s)

  unfoldable pub lift : Result RuntimeError A → Firecracker A
  lift r s = (r, s)

  unfoldable pub gets : (FirecrackerRuntime → A) → Firecracker A
  gets f s = (ok (f s), s)

  -- The outcome of a step, which is not passed on yet.
  unfoldable pub attempt : Firecracker A → Firecracker (Result RuntimeError A)
  attempt m s = (ok (m s).0, (m s).1)

  -- `if test { … } else { … }`
  unfoldable pub branch : Bool → Firecracker A → Firecracker A → Firecracker A
  branch true m n = m
  branch false m n = n

  abbrev pub clean_after :
      Firecracker (Unit {0})
      → Result RuntimeError A × FirecrackerRuntime
      → Result RuntimeError A × FirecrackerRuntime
  clean_after cleanup (ok a, t) = (ok a, t)
  clean_after cleanup (err e, t) = (err e, (cleanup t).1)

  -- `if let Err(error) = … { let _ = cleanup; return Err(error) }`
  unfoldable pub on_failure : Firecracker (Unit {0}) → Firecracker A → Firecracker A
  on_failure cleanup m s = clean_after cleanup (m s)

-- `if test { return Err(e) }`
unfoldable pub refuse_if : Bool → RuntimeError → Firecracker (Unit {0})
refuse_if true e s = (err e, s)
refuse_if false e s = (ok tt, s)

unfoldable pub modify : (FirecrackerRuntime → FirecrackerRuntime) → Firecracker (Unit {0})
modify f s = (ok tt, f s)

infixl 5 ◌>>=◌ ◌>>◌
unfoldable pub ◌>>=◌ : {A B : Type 0} → Firecracker A → (A → Firecracker B) → Firecracker B
◌>>=◌ m f s = continue (m s) f

unfoldable pub ◌>>◌ : {A B : Type 0} → Firecracker A → Firecracker B → Firecracker B
◌>>◌ m k s = continue (m s) (λ _. k)

module _ (host : Host) where
  unfoldable pub ask : Call → Firecracker Reply
  ask call s =
      (ok (host.reply s.calls call), record s { calls = (call, host.reply s.calls call) ∷ s.calls })

  -- `call.await.map_err(|_| error)?`
  unfoldable pub expect : RuntimeError → Call → Firecracker (Unit {0})
  expect error call s = (
    if is_done (host.reply s.calls call) then ok tt else err error,
    record s { calls = (call, host.reply s.calls call) ∷ s.calls },
  )
