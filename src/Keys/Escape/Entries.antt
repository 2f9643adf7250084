-- ===== src/Keys/Escape/Entries.antt =====
-- `Object.fromEntries` over distinct names changes nothing.
use plugin_rest_cache.Prelude.{
  ◌≡◌, ◌≢◌, refl, ap, sym, ◌∙◌, Text, text_eq, text_eq_iff, Bool-cases, inl, inr,
}
use plugin_rest_cache.Json.{Json, Fields, end, field}
use plugin_rest_cache.Keys.Escape.{assign, from_entries}

-- The name is none of the fields'.
abbrev pub Fresh : Text → Fields → Type 0
Fresh k end = Unit
Fresh k (field j v fs) = (k ≢ j) × Fresh k fs

abbrev pub HasDistinctNames : Fields → Type 0
HasDistinctNames end = Unit
HasDistinctNames (field k v fs) = Fresh k fs × HasDistinctNames fs

append : Fields → Fields → Fields
append end gs = gs
append (field k v fs) gs = field k v (append fs gs)

append-end : (fs : Fields) → append fs end ≡ fs
unfolding append
append-end end = refl
append-end (field k v fs) = ap (field k v) (append-end fs)

append-assoc_one :
    (fs gs : Fields) (k : Text) (v : Json)
    → append (append fs (field k v end)) gs ≡ append fs (field k v gs)
unfolding append
append-assoc_one end gs k v = refl
append-assoc_one (field j w fs) gs k v = ap (field j w) (append-assoc_one fs gs k v)

Fresh-apart :
    (j k : Text) (acc gs : Fields) (v : Json) → Fresh j (append acc (field k v gs)) → j ≢ k
unfolding append
Fresh-apart j k end gs v h = h.0
Fresh-apart j k (field i w acc) gs v h = Fresh-apart j k acc gs v h.1

assign-append :
    (k : Text) (v : Json) (acc gs : Fields)
    → HasDistinctNames (append acc (field k v gs))
    → assign k v acc ≡ append acc (field k v end)
unfolding assign append
assign-append k v end gs h = refl
assign-append k v (field j w acc) gs (fresh, h) = elim (Bool-cases (text_eq j k)) [
  | inl same ↦ absurd (Fresh-apart j k acc gs v fresh ((text_eq_iff j k).0 same))
  | inr other ↦ rw other (ap (field j w) (assign-append k v acc gs h))
]

from_entries-append :
    (acc fs : Fields) → HasDistinctNames (append acc fs) → from_entries acc fs ≡ append acc fs
unfolding from_entries
from_entries-append acc end h = sym (append-end acc)
from_entries-append acc (field k v fs) h =
    ap (λ a. from_entries a fs) (assign-append k v acc fs h)
    ∙ from_entries-append (append acc (field k v end)) fs (rw append-assoc_one h)
    ∙ append-assoc_one acc fs k v

pub from_entries_lem : (fs : Fields) → HasDistinctNames fs → from_entries end fs ≡ fs
unfolding append
from_entries_lem fs h = from_entries-append end fs h
