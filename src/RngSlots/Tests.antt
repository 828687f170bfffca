-- ===== src/RngSlots/Tests.antt =====
-- The slots of a ranging request to the nodes 0, 2, 3 and 5.
use uwb_core.Common.{ℕ, ◌+◌, ◌<◌, ◌≡◌, ◌≢◌, refl, u32, arith}
use uwb_core.RngSlots.{and_bits, number_of_bits, slot_position, slot_remaining, bit_index}
use uwb_core.RngSlots.Count.{two_to}
use uwb_core.RngSlots.Places.{bit_index-Ordered, bit_index-filled, bit_index-remaining}

abbrev nodes : ℕ
nodes = 45

node_2 : and_bits 32 nodes (two_to 2) ≢ 0
unfolding and_bits
node_2 = omega arith

node_5 : and_bits 32 nodes (two_to 5) ≢ 0
unfolding and_bits
node_5 = omega arith

four_nodes : number_of_bits nodes ≡ 4
unfolding number_of_bits
four_nodes = refl

last_node : bit_index nodes 32 slot_position ≡ 3
unfolding bit_index
last_node = refl

-- the node that answers last is told that there are 2 ^ 32 - 1 slots left
none_remain : bit_index nodes 32 slot_remaining ≡ 4294967295
unfolding bit_index
none_remain = refl

bit_index-Ordered_example :
    (bit_index nodes (two_to 2) slot_position < bit_index nodes (two_to 5) slot_position)
    × (bit_index nodes (two_to 5) slot_position < number_of_bits nodes)
bit_index-Ordered_example =
    bit_index-Ordered nodes 2 5 (omega arith) (omega arith) (omega arith) node_2 node_5

bit_index-filled_example :
    (i : ℕ) × (i < 32)
    × (and_bits 32 nodes (two_to i) ≢ 0)
    × (bit_index nodes (two_to i) slot_position ≡ 3)
bit_index-filled_example = bit_index-filled nodes 3 (omega arith) (omega (arith, four_nodes))

bit_index-remaining_example :
    u32 (bit_index nodes (two_to 5) slot_remaining + 2) + bit_index nodes (two_to 5) slot_position
    ≡ number_of_bits nodes
bit_index-remaining_example = bit_index-remaining nodes 5 (omega arith) (omega arith) node_5
