-- ===== src/Checks/NodeInfoWire/Total.antt =====
-- That the decoding of internal/checks/grpc.go comes to an end, whatever a node sends.
use chain_registry_sentinel.Base.{
  ℕ, zero, suc, ◌≤◌, ◌<◌, ◌≡◌, ◌≢◌, refl, Bool, true, false, ◌&&◌, Option, none, [], ◌∷◌, ◌==◌,
  String, length, if◌then◌else◌, arith,
}
use chain_registry_sentinel.Checks.NodeInfoWire.{
  Data, drop, Tag, Wire, bytes_type, returns, skip_value, after_turn, turn, decode_loop,
  string_value, embedded_value, decode_default_node_info_network, decode_get_node_info_network,
}
use chain_registry_sentinel.Github.Outcome.{Outcome, ok, err}

length-drop : (n : ℕ) (d : Data) → length (drop n d) ≤ length d
length-drop zero d = omega arith
length-drop (suc n) [] = omega arith
length-drop (suc n) (b ∷ d) = omega (arith, length-drop n d)

drop-shorter : (n : ℕ) (b : ℕ) (d : Data) → 0 < n → length (drop n (b ∷ d)) ≤ length d
drop-shorter zero b d h = absurd (omega (arith, h))
drop-shorter (suc n) b d h = length-drop n d

-- What protowire documents: a tag takes at least one byte.
abbrev pub TagsTakeBytes : Wire → Type 0
TagsTakeBytes W = (d : Data) (tag : Tag) → W.consume_tag d ≡ ok tag → 0 < tag.size

module _ (W : Wire) (tags : TagsTakeBytes W) where
  module _ (wanted : ℕ) (read : Data → Option (Outcome String)) (missing : String)
      (reads : (d : Data) → read d ≢ none) where
    turn-shorter :
        (b : ℕ) (d : Data) (o : Outcome Tag)
        → W.consume_tag (b ∷ d) ≡ o
        → (next : Data → Option (Outcome String))
        → ((rest : Data) → length rest ≤ length d → next rest ≢ none)
        → after_turn (turn W wanted read missing (b ∷ d) o) next ≢ none
    unfolding turn skip_value
    turn-shorter b d (err e) h next shorter = ground arith
    turn-shorter b d (ok tag) h next shorter =
        pieces (tag.number == wanted && tag.wire_type == bytes_type)
          (W.consume_field_value tag.number tag.wire_type (drop tag.size (b ∷ d)))
      where
        pieces :
            (c : Bool) (v : Outcome ℕ)
            → after_turn
                (if c
                  then returns (read (drop tag.size (b ∷ d)))
                  else skip_value (drop tag.size (b ∷ d)) v)
                next
              ≢ none
        pieces true v = reads (drop tag.size (b ∷ d))
        pieces false (err e) = ground arith
        pieces false (ok n) = shorter (drop n (drop tag.size (b ∷ d))) (
            omega (
              arith,
              length-drop n (drop tag.size (b ∷ d)),
              drop-shorter tag.size b d (tags (b ∷ d) tag h),
            ))

    decode_loop-returns :
        (fuel : ℕ) (d : Data) → length d ≤ fuel → decode_loop W wanted read missing fuel d ≢ none
    unfolding decode_loop
    decode_loop-returns fuel [] h = ground arith
    decode_loop-returns zero (b ∷ d) h = absurd (omega (arith, h))
    decode_loop-returns (suc fuel) (b ∷ d) h =
        turn-shorter b d (W.consume_tag (b ∷ d)) refl
          (λ rest. decode_loop W wanted read missing fuel rest)
          (λ rest shorter. decode_loop-returns fuel rest (omega (arith, h, shorter)))

  decode_default_node_info_network-returns :
      (d : Data) → decode_default_node_info_network W d ≢ none
  unfolding decode_default_node_info_network
  decode_default_node_info_network-returns d =
      decode_loop-returns 4 _ _ (λ v. value (W.consume_string v)) (length d) d (omega arith)
    where
      value : (o : Outcome (String × ℕ)) → string_value W o ≢ none
      value (ok (s, n)) = ground arith
      value (err e) = ground arith

  -- Whatever bytes a node sends, the two nested loops come to an end, within as many turns as there are
  -- bytes: they return a network or an error.
  pub decode_get_node_info_network-returns : (d : Data) → decode_get_node_info_network W d ≢ none
  unfolding decode_get_node_info_network
  decode_get_node_info_network-returns d =
      decode_loop-returns 1 _ _ (λ v. value (W.consume_bytes v)) (length d) d (omega arith)
    where
      value : (o : Outcome (Data × ℕ)) → embedded_value W o ≢ none
      value (ok (embedded, n)) = decode_default_node_info_network-returns embedded
      value (err e) = ground arith
