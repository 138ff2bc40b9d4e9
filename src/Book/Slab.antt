-- ===== src/Book/Slab.antt =====
-- The slab of order nodes, the queue of a price level and the insertion into the id index:
-- alloc_node, free_node, link_back, unlink, id_insert and id_grow of cpp/src/order_book.cpp.
use high_frequency_trading.Base.{
  ℕ, zero, suc, ◌+◌, ◌-◌, ◌*◌, ◌%◌, ◌^◌, false, List, [], ◌∷◌, ◌++◌, ◌==◌, leb, ltb, if◌then◌else◌,
  set, length,
}
use high_frequency_trading.IdIndex.{IdTable, rebuild, place}
use high_frequency_trading.Book.Records.{
  OrderNode, PriceLevel, OrderBook, blank_node, nil_node, node_at,
}

-- `++x` and `--x` of a uint32_t.
abbrev pub inc32 : ℕ → ℕ
inc32 n = (n + 1) % 2 ^ 32

abbrev pub dec32 : ℕ → ℕ
dec32 n = (n + 2 ^ 32 - 1) % 2 ^ 32

-- The slot, beside the book with its slab and its free list.
unfoldable pub alloc_node : OrderBook → ℕ × OrderBook
alloc_node b =
    if b.free_head == nil_node
    then (length b.pool, record b { pool = b.pool ++ (blank_node ∷ []) })
    else (
      b.free_head,
      record b {
        free_head = (node_at b.pool b.free_head).next;
        pool = set b.pool b.free_head blank_node;
      },
    )

unfoldable pub free_node : OrderBook → ℕ → OrderBook
free_node b slot = record b {
  pool = set b.pool slot (record (node_at b.pool slot) { live = false; next = b.free_head });
  free_head = slot;
}

abbrev pub with_next : List OrderNode → ℕ → ℕ → List OrderNode
with_next pool slot next = set pool slot (record (node_at pool slot) { next = next })

abbrev pub with_prev : List OrderNode → ℕ → ℕ → List OrderNode
with_prev pool slot prev = set pool slot (record (node_at pool slot) { prev = prev })

-- The slab and the level after a node is appended to the level's queue.
unfoldable pub link_back : List OrderNode → PriceLevel → ℕ → List OrderNode × PriceLevel
link_back pool level slot =
    let pool' = set pool slot (record (node_at pool slot) { prev = level.tail; next = nil_node }) in
    if level.tail == nil_node
    then (pool', record level { head = slot; tail = slot; order_count = inc32 level.order_count })
    else (
      with_next pool' level.tail slot,
      record level { tail = slot; order_count = inc32 level.order_count },
    )

unfoldable pub unlink : List OrderNode → PriceLevel → ℕ → List OrderNode × PriceLevel
unlink pool level slot =
    let prev = (node_at pool slot).prev in
    let next = (node_at pool slot).next in
    let pool' = if prev == nil_node then pool else with_next pool prev next in
    (
      (if next == nil_node then pool' else with_prev pool' next prev),
      record level {
        head = if prev == nil_node then next else level.head;
        tail = if next == nil_node then prev else level.tail;
        order_count = dec32 level.order_count;
      },
    )

-- `while (cap < n) cap <<= 1` with the doublings that a size_t can take.
unfoldable pub grow_cap : ℕ → ℕ → ℕ → ℕ
grow_cap zero cap n = cap
grow_cap (suc f) cap n = let rest = grow_cap f (2 * cap) n in if ltb cap n then rest else cap

unfoldable pub id_grow : IdTable → IdTable
unfolding grow_cap
id_grow t = let cap = grow_cap 54 1024 ((t.count + 1) * 4) in rebuild t cap (cap - 1)

unfoldable pub id_insert : IdTable → ℕ → ℕ → IdTable
unfolding id_grow
id_insert t id slot =
    place (if leb (length t.keys) ((t.count + t.tombstones + 1) * 2) then id_grow t else t) id slot
