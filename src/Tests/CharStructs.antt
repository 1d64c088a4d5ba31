-- ===== src/Tests/CharStructs.antt =====
-- CharStruct at concrete texts.
use hcl.Base.{
  ◌+◌, ◌≡◌, ◌↔◌, refl, true, false, not, ◌&&◌, [], ◌∷◌, ◌++◌, some, none, length, ltb,
  if◌then◌else◌,
}
use hcl.Strings.{lacks}
use hcl.CharStruct.{CharStruct, equals, greater, greater_equal, less, less_equal, plus, plus_assign}
use hcl.CharStruct.Order.{comparisons-order}
use hcl.CharStruct.Text.{no_nul, plus-append}

abbrev tcp : CharStruct
tcp = record { value = 116 ∷ 99 ∷ 112 ∷ [] }

abbrev ofi : CharStruct
ofi = record { value = 111 ∷ 102 ∷ 105 ∷ [] }

tcp-no_nul : no_nul tcp.value ≡ true
unfolding lacks
tcp-no_nul = refl

ofi-no_nul : no_nul ofi.value ≡ true
unfolding lacks
ofi-no_nul = refl

comparisons-order_example :
    ((equals tcp ofi ≡ true) ↔ (tcp.value ≡ ofi.value))
    × (equals tcp ofi ≡ (not (less tcp ofi) && not (greater tcp ofi)))
    × ((less tcp ofi && greater tcp ofi) ≡ false)
    × (greater tcp ofi ≡ less ofi tcp)
    × (less_equal tcp ofi ≡ not (greater tcp ofi))
    × (greater_equal tcp ofi ≡ not (less tcp ofi))
    × ((c : CharStruct) → (less tcp ofi && less ofi c && not (less tcp c)) ≡ false)
comparisons-order_example = comparisons-order tcp ofi

plus-append_example :
    let joined : CharStruct = record { value = tcp.value ++ ofi.value } in
    let both = if ltb (length tcp.value + length ofi.value) 256 then some joined else none in
    (plus tcp ofi ≡ both) × (plus_assign tcp ofi ≡ both)
plus-append_example = plus-append tcp ofi tcp-no_nul ofi-no_nul
