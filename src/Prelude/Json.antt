-- ===== src/Prelude/Json.antt =====
-- JSON values, as `json.dumps` stores them and `json.loads` returns them.
use Prim.Native.Nat.{ℕ, zero, suc}
use Prim.Native.String.{String}
use mathlib.Core.Bool.{Bool, true, false}
use mathlib.Core.Option.{Option, none, some}
use genro_mail_proxy.Prelude.Int.{ℤ, pos, negsuc}
use genro_mail_proxy.Prelude.Tests.{◌==ˢ◌, if◌then◌else◌, is_empty}

mutual
  pub data Json : Type 0 where
    null : Json
    bool : Bool → Json
    num : ℤ → Json
    str : String → Json
    arr : Items → Json
    obj : Fields → Json

  pub data Items : Type 0 where
    nil : Items
    cons : Json → Items → Items

  pub data Fields : Type 0 where
    end : Fields
    field : String → Json → Fields → Fields

-- A value that a column may hold as NULL.
abbrev pub opt_str : Option String → Json
opt_str none = null
opt_str (some s) = str s

abbrev pub opt_num : Option ℕ → Json
opt_num none = null
opt_num (some n) = num (pos n)

unfoldable pub lookup_field : String → Fields → Option Json
lookup_field k end = none
lookup_field k (field j v fs) = if j ==ˢ k then some v else lookup_field k fs

-- `d.get(k)`; a value that is no object has no keys.
unfoldable pub lookup : String → Json → Option Json
lookup k (obj fs) = lookup_field k fs
lookup k _ = none

-- Python's truth of a value.
abbrev pub truth : Json → Bool
truth null = false
truth (bool b) = b
truth (num (pos zero)) = false
truth (num (pos (suc n))) = true
truth (num (negsuc n)) = true
truth (str s) = if is_empty s then false else true
truth (arr nil) = false
truth (arr (cons x xs)) = true
truth (obj end) = false
truth (obj (field k v fs)) = true

-- `d.get(k)` as a condition.
abbrev pub is_given : Option Json → Bool
is_given none = false
is_given (some v) = truth v
