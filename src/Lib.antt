-- ===== src/Lib.antt =====
-- A skip list of versioned entries in an arena: the crate skl.
--
-- The map keeps its nodes in one block of memory that an allocator hands out. A node has a
-- header (the offset and length of its value in one word, the offset, length and tower height of
-- its key), behind it a tower of links, and elsewhere its key and its trailer with the value.
-- Each level of the towers is a list from the head to the tail, linked both ways, in the order
-- of the keys and among equal keys from the newest version to the oldest. A reader at a version
-- passes newer entries by, and an entry whose length is the tombstone length counts as removed.
--
-- Encoding: the packed words of src/map.rs. Compare: comparators, ranges and trailers of
-- src/lib.rs, with the order that they give the entries. Height: random_height of src/lib.rs.
-- Node: Node, Link and NodePtr of src/map.rs, with the memory that they read and, in Node/Align,
-- the masked offset of align_offset. Store: what is written to that memory. Meta: the counters.
-- Options: src/options.rs. Types: the buffers and key forms of src/types.rs. Entry:
-- src/map/entry.rs. SkipMap: the state of a map; below it Find is find_near, Get is get and
-- contains_key of src/map/api.rs, Seek is gt, lt, ge, le and the version walks, Invariant says
-- when a map is well formed. Splice: find_splice and find_splice_for_level. Alloc: the four
-- allocations of a node. Upsert and Update: set_value, upsert, new_node and update; Upsert/Owned
-- is what an owned entry of src/map/entry.rs reads after set_value. Race: the loop of update on
-- one level by many threads, with the links in Race/Facts to Race/Safety, the order of the
-- entries in Race/Entries to Race/Outcome, a thread that is left alone in Race/Alone to
-- Race/Termination, and the loop of Update against its steps in Race/Single. Create: new_in and
-- clear, followed through their allocations in Create/Ends and Create/Ready to Create/Start, and
-- in Create/Open the constructors of src/map/api.rs with what they map of a file. Api: the
-- operations of src/map/api.rs, its accessors in Api/Accessors. Iter: src/map/iterator, the
-- iterator of src/map/iterator/iter.rs in Iter/Present. Run: results, errors and panics. Arena:
-- the part of the crate rarena_allocator that the map calls, as a record of operations, with
-- what the map relies on in Arena/Laws. Below Alloc and Update an insertion is followed from the
-- search over the allocation to the linking, up to Api/Insertion, with the counters in
-- Api/Counters, and over a series of insertions in Api/Series, Api/Calls and Api/Fresh, there
-- from the construction on. Spec: a map without nodes, levels and order, as a collection of
-- entries; SkipMap/Contents, Update/Contents and Upsert/Readers hold the map against it.
-- Prelude: shared notation. Tests: concrete maps, buffers and words.
--
-- A node pointer is its offset, and the arena's memory is seen as four functions of an offset:
-- node headers, links, bytes and trailers. Numbers are natural numbers, with the wrap-around of
-- the casts to u32 written out. A map operation is a function from a map to a result with the
-- new map. Loops along links take fuel, one unit for each step: a search needs at most the map's
-- height and the number of its entries together, and the linking of a node one round on each
-- level. A loop around a compare-and-exchange is run against the cells that its attempts meet,
-- which other threads may have stored. In Race any number of threads run the inner loop of
-- `update` on one level, their steps in any order; whole updates of several levels are not
-- interleaved. Elsewhere one thread runs, and the word that another one stores between a read
-- and an exchange of a node's value is an argument.
--
-- The allocator, the random number and the table of probabilities, which is computed in floating
-- point, are parameters. What the system maps of a file is an argument too. Flushes, the
-- messages of errors and the freelist kind are not modelled.
mod Prelude
pub mod Encoding
pub mod Compare
pub mod Node
pub mod Meta
pub mod Height
pub mod Options
pub mod Types
pub mod Run
pub mod Arena
pub mod Splice
pub mod Store
pub mod Alloc
pub mod Entry
pub mod Upsert
pub mod Update
pub mod Race
pub mod SkipMap
pub mod Iter
pub mod Create
pub mod Api
mod Tests
pub mod Spec
