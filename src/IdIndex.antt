-- ===== src/IdIndex.antt =====
-- The index from order ids to slots: open addressing with linear probing and tombstones. The same
-- code stands in cpp/src/order_book.cpp (slot_for, id_insert, id_erase, id_grow) and in
-- cpp/src/oms.cpp (slot_for, index_insert, index_erase, index_compact); what differs, the size
-- that a rebuild takes, is an argument here.
-- The endless loops `for (;;)` take the table's size as fuel: a probe that has an empty key ahead of
-- it visits no cell twice.
mod Probe
pub mod Counts
pub mod Invariant
pub mod Lookup
pub mod Update
mod Rebuilding
pub mod Rebuild
mod Tests
use Prim.Native.Nat.{bit_and, bit_xor}
use high_frequency_trading.Base.{
  ℕ, zero, suc, ◌+◌, ◌*◌, ◌/◌, ◌%◌, ◌^◌, Bool, true, false, ◌||◌, Option, none, some, List, [], ◌∷◌,
  ◌==◌, if◌then◌else◌, get_or, set, replicate, length, word, inc64, sub64,
}

-- kEmptyKey, kTombstone (both files), kNilNode and kNilSlot.
abbrev pub empty_key : ℕ
empty_key = 0

abbrev pub tombstone : ℕ
tombstone = 0xFFFFFFFFFFFFFFFF

abbrev pub nil_slot : ℕ
nil_slot = 0xFFFFFFFF

-- The id_keys_, id_vals_, id_mask_, id_count_ and id_tombstones_ of either class.
pub record IdTable : Type 0 where
  pub keys : List ℕ
  pub vals : List ℕ
  pub mask : ℕ
  pub count : ℕ
  pub tombstones : ℕ

-- The splitmix64 finaliser.
unfoldable pub mix : ℕ → ℕ
mix x =
    let a = (x + 0x9E3779B97F4A7C15) % word in
    let b = (bit_xor a (a / 2 ^ 30) * 0xBF58476D1CE4E5B9) % word in
    let c = (bit_xor b (b / 2 ^ 27) * 0x94D049BB133111EB) % word in bit_xor c (c / 2 ^ 31)

abbrev pub home : ℕ → ℕ → ℕ
home mask id = bit_and (mix id) mask

-- The probe loop: from `i` on, the first position whose key passes the test; `none` when the fuel
-- is used up.
unfoldable pub walk : (ℕ → Bool) → List ℕ → ℕ → ℕ → ℕ → Option ℕ
walk stop keys mask zero i = none
walk stop keys mask (suc fuel) i = elim (stop (get_or keys i empty_key)) [
  | true ↦ some i
  | false ↦ walk stop keys mask fuel (bit_and (i + 1) mask)
]

abbrev pub reserved : ℕ → Bool
reserved id = id == empty_key || id == tombstone

-- Where `id` stands, or where its probe ends.
abbrev pub ends_lookup : ℕ → ℕ → Bool
ends_lookup id k = k == id || k == empty_key

abbrev pub ends_insert : ℕ → ℕ → Bool
ends_insert id k = k == empty_key || k == tombstone || k == id

abbrev pub ends_settle : ℕ → Bool
ends_settle k = k == empty_key

unfoldable pub slot_for : IdTable → ℕ → ℕ
slot_for t id =
    if reserved id
    then nil_slot
    else elim (walk (ends_lookup id) t.keys t.mask (length t.keys) (home t.mask id)) [
      | none ↦ nil_slot
      | some i ↦ if get_or t.keys i empty_key == id then get_or t.vals i nil_slot else nil_slot
    ]

-- The write at the end of an insertion's probe.
unfoldable pub put_at : IdTable → ℕ → ℕ → ℕ → IdTable
put_at t i id slot =
    let k = get_or t.keys i empty_key in
    record {
      keys = set t.keys i id;
      vals = set t.vals i slot;
      mask = t.mask;
      count = if k == id then t.count else inc64 t.count;
      tombstones = if k == tombstone then sub64 t.tombstones 1 else t.tombstones;
    }

-- An insertion, after its test of the load.
unfoldable pub place : IdTable → ℕ → ℕ → IdTable
unfolding put_at
place t id slot = elim (walk (ends_insert id) t.keys t.mask (length t.keys) (home t.mask id)) [
  | none ↦ t
  | some i ↦ put_at t i id slot
]

unfoldable pub erase_at : IdTable → ℕ → IdTable
erase_at t i = record {
  keys = set t.keys i tombstone;
  vals = set t.vals i nil_slot;
  mask = t.mask;
  count = sub64 t.count 1;
  tombstones = inc64 t.tombstones;
}

unfoldable pub erase : IdTable → ℕ → IdTable
unfolding erase_at
erase t id = elim (walk (ends_lookup id) t.keys t.mask (length t.keys) (home t.mask id)) [
  | none ↦ t
  | some i ↦ if get_or t.keys i empty_key == id then erase_at t i else t
]

-- One live entry of the old table, in the loop of a rebuild.
unfoldable pub settle : IdTable → ℕ → ℕ → IdTable
settle t k v = elim (walk ends_settle t.keys t.mask (length t.keys) (home t.mask k)) [
  | none ↦ t
  | some i ↦ record {
    keys = set t.keys i k;
    vals = set t.vals i v;
    mask = t.mask;
    count = inc64 t.count;
    tombstones = t.tombstones;
  }
]

-- The loop of a rebuild over the old keys and values.
unfoldable pub reinsert : IdTable → List ℕ → List ℕ → IdTable
unfolding settle
reinsert t (k ∷ ks) (v ∷ vs) = reinsert (if reserved k then t else settle t k v) ks vs
reinsert t _ _ = t

abbrev pub vacant : ℕ → ℕ → IdTable
vacant size mask = record {
  keys = replicate size empty_key;
  vals = replicate size nil_slot;
  mask = mask;
  count = 0;
  tombstones = 0;
}

unfoldable pub rebuild : IdTable → ℕ → ℕ → IdTable
unfolding reinsert
rebuild t size mask = reinsert (vacant size mask) t.keys t.vals
