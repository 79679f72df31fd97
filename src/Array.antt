-- ===== src/Array.antt =====
-- The array of fixed-size values (src/container/array.cpp), in an extent. The values of a block are
-- its slots. `fill` is the loop of `resize`, with a round for each value at most.
pub mod Valid
pub mod Push
pub mod Size
pub mod Tests
pub mod Fill
pub mod Resize
use extpp.Prelude.{
  ℕ, zero, suc, ◌+◌, ◌-◌, ◌*◌, ◌/◌, ◌%◌, ◌≡◌, ◌<◌, ◌≤◌, Bool, true, false, not, ◌&&◌, Option, none,
  some, Result, ok, err, bad_argument, bad_operation, out_of_fuel, guard, assert, ◌>>=◌, ◌>>◌,
  if◌then◌else◌, ltb, leb, ◌==◌, List, replicate, min,
}
use extpp.Math.{ceil_div, round_towards_pow2}
use extpp.Extent.{RangeAllocator, Extent, Slots}
use extpp.Extent

abbrev pub Value : Type 0
Value = List ℕ

-- growth_strategy.
pub data Growth : Type 0 where
  linear : ℕ → Growth
  exponential : Growth

unfoldable pub new_size : Growth → ℕ → ℕ
new_size (linear chunk_size) minimum = ceil_div minimum chunk_size * chunk_size
new_size exponential minimum = round_towards_pow2 minimum

-- What the new places get: the value, or zeros where there is none.
abbrev pub new_value : Option Value → ℕ → Value
new_value none value_size = replicate value_size 0
new_value (some v) value_size = v

-- The slots from `offset` on, `count` of them, have the value now.
unfoldable pub put : ℕ → ℕ → Value → Slots → Slots
put offset count value block s = if leb offset s && ltb s (offset + count) then value else block s

abbrev pub update : (ℕ → Slots) → ℕ → Slots → ℕ → Slots
update blocks i block k = if i == k then block else blocks k

module _ (alloc : RangeAllocator) where
  pub record Array : Type 0 where
    pub extent : Extent alloc
    pub size : ℕ
    pub value_size : ℕ
    pub block_capacity : ℕ
    pub growth : Growth

  abbrev pub blocks : Array → ℕ
  blocks a = a.extent.size

  abbrev pub capacity : Array → ℕ
  capacity a = a.extent.size * a.block_capacity

  unfoldable pub check_index : Array → ℕ → Result (Unit {0})
  check_index a index = guard (ltb index a.size) bad_argument

  -- The block, zeroed first where its first slot is written.
  unfoldable pub writable : Array → ℕ → ℕ → Slots
  writable a i offset = if offset == 0 then (λ s. replicate a.value_size 0) else a.extent.blocks i

  unfoldable pub set_block : ℕ → Slots → Array → Array
  set_block i block a = record a {
    extent = record a.extent { blocks = update a.extent.blocks i block };
  }

  unfoldable pub get : ℕ → Array → Result Value
  unfolding check_index
  get index a = do
    check_index a index
    i ← Extent.get alloc a.extent (index / a.block_capacity)
    ok (a.extent.blocks i (index % a.block_capacity))

  unfoldable pub set : ℕ → Value → Array → Result Array
  unfolding check_index put set_block
  set index value a = do
    check_index a index
    i ← Extent.get alloc a.extent (index / a.block_capacity)
    ok (set_block i (put (index % a.block_capacity) 1 value (a.extent.blocks i)) a)

  unfoldable pub resize_extent : ℕ → Bool → Array → Result Array
  resize_extent minimum exact a = do
    e ← Extent.resize alloc (if exact then minimum else new_size a.growth minimum) a.extent
    ok (record a { extent = e })

  unfoldable pub reserve : ℕ → Array → Result Array
  reserve n a = do
    let needed = ceil_div n a.block_capacity
    a' ← if ltb (blocks a) needed then resize_extent needed false a else ok a
    assert (leb n (capacity a'))
    ok a'

  unfoldable pub shrink : Bool → Array → Result Array
  unfolding resize_extent
  shrink exact a = resize_extent (ceil_div a.size a.block_capacity) exact a

  unfoldable pub push_back : Value → Array → Result Array
  unfolding writable put set_block
  push_back value a = do
    let blk_index = a.size / a.block_capacity
    let blk_offset = a.size % a.block_capacity
    a' ← if blk_index == blocks a then resize_extent (blocks a + 1) false a else ok a
    i ← Extent.get alloc a'.extent blk_index
    let a'' = set_block i (put blk_offset 1 value (writable a' i blk_offset)) a'
    assert (leb (a.size + 1) (capacity a''))
    ok (record a'' { size = a.size + 1 })

  unfoldable pub pop_back : Array → Result Array
  pop_back a = do guard (not (a.size == 0)) bad_operation; ok (record a { size = a.size - 1 })

  unfoldable pub reset : Array → Result Array
  reset a = do e ← Extent.clear alloc a.extent; ok (record a { extent = e; size = 0 })

  unfoldable pub fill : ℕ → ℕ → ℕ → ℕ → Value → Array → Result Array
  unfolding writable put set_block
  fill rounds zero blk_index blk_offset value a = ok a
  fill zero (suc remaining) blk_index blk_offset value a = err out_of_fuel
  fill (suc rounds) (suc remaining) blk_index blk_offset value a = do
    let count = min (suc remaining) (a.block_capacity - blk_offset)
    i ← Extent.get alloc a.extent blk_index
    let a' = set_block i (put blk_offset count value (writable a i blk_offset)) a
    fill rounds (suc remaining - count) (blk_index + 1) 0 value a'

  unfoldable pub resize : ℕ → Option Value → Array → Result Array
  unfolding reserve fill
  resize n value a =
      if n == a.size then ok a else if ltb n a.size then ok (record a { size = n }) else (do
        a' ← reserve n a
        let v = new_value value a.value_size
        a'' ←
            fill (n - a.size) (n - a.size) (a.size / a.block_capacity) (a.size % a.block_capacity) v
              a'
        ok (record a'' { size = n }))

  unfoldable pub clear : Array → Result Array
  unfolding resize
  clear a = resize 0 none a

  -- The constructor.
  unfoldable pub open_array : ℕ → ℕ → ℕ → Extent alloc → Result Array
  open_array block_size value_size size extent = do
    let block_capacity = block_size / value_size
    guard (not (block_capacity == 0)) bad_argument
    ok (record {
      extent = extent;
      size = size;
      value_size = value_size;
      block_capacity = block_capacity;
      growth = exponential;
    })
