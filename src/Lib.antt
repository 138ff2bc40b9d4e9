-- ===== src/Lib.antt =====
-- The trading engine of cpp/, as a model of its core and the theorems that make it correct.
--
-- The program and its files. Ticks reach the engine through a queue between two threads
-- (cpp/include/hft/ring_buffer.hpp: Ring), are checked for gaps and silence (cpp/src/feed_health.cpp:
-- FeedHealth), and drive a moving-average crossover (cpp/src/strategy.cpp: Strategy). A signal becomes
-- an order on the instrument's tick grid (cpp/src/instrument.cpp: Instruments), which passes the
-- pre-trade checks (cpp/src/risk.cpp: Risk) and gets an id and a slot from the order manager
-- (cpp/src/oms.cpp: Oms). The checks read what is still working at the venue from the order manager;
-- Engine is that way of an order through cpp/src/engine.cpp, from the check to the id. Reports of the
-- venue go to the order manager, and its fills to the risk manager. IdIndex is the open-addressed
-- table from order ids to slots that stands in cpp/src/order_book.cpp and again in cpp/src/oms.cpp.
-- Book is the matching engine of cpp/src/order_book.cpp itself: Book/Records its data, Book/Bitmap the
-- bitmap of the levels, Book/Slab the nodes and the queue links, Book/Match the matching loops, Book.antt
-- the operations and Book/Views the accessors; Book/Priority is the specification that matching is held
-- against, price-time priority on lists.
-- Types has the value types of cpp/include/hft/types.hpp, Double the type `double`, and Base the
-- shared names: lists and words over native numbers, signed integers, masks and remainders.
--
-- How state and operations correspond. A class is a record with the names of its fields, less the
-- trailing underscores; a method that changes it returns the new record, beside what the source
-- returns. `nullptr`, and a constructor that throws, are `none`. Constructors of enumerations have the
-- source's names, but for the reports ExecType::Cancelled and ExecType::CancelRejected, which are
-- cancel_confirmed and cancel_refused here because OrderState has a `cancelled` of its own. A function
-- that is long in the source is cut along its comments: `check` of cpp/src/risk.cpp is `check`,
-- `screen` and `check_rates`; `apply` of cpp/src/oms.cpp is `apply`, `dispatch` and one function for
-- each type of report; the method `on_tick` of the crossover is `roll` and `decide`. Each file names
-- the code it is about.
--
-- Numbers. Unsigned counters, ids and sequence numbers wrap at 2 ^ 64 where they are written.
-- Prices, quantities, positions and times are signed and unbounded: overflow of a signed integer is
-- undefined in the source. So is the write to a vector indexed by symbol at SymbolId 2 ^ 32 - 1, where
-- `resize(symbol + 1)` wraps to an empty vector; the registry's ids are the places of its instruments,
-- fewer than 2 ^ 32, and symbols are taken below that one. `double` is a parameter with the operations that the code uses and no law
-- of them, so that no theorem depends on rounding; names of instruments are a parameter with the tests
-- `empty()` and equality. Double.Whole has an instance on whole values, for concrete runs.
--
-- Loops and fuel. Loops over vectors are recursion on lists. The endless probe loops of the id index
-- take the table's size as fuel: a probe that has an empty key ahead of it visits no cell twice.
-- Doubling loops take 64 steps, as many as a size_t can double, and 54 where they start at 1024. The
-- loop of `match` over the orders of a level has one step more than the level counts, since each step
-- but the last takes an order out of the level or spends the quantity; its loop over the levels has
-- one step more than a side has levels, since a level that was worked off is passed. Searches for a
-- bit take the 64 bits of a word, and walks over the bitmap its words.
--
-- Threads. The queue is modelled action by action: a run is any list of actions of the two threads,
-- with each store and load of an index as one action and the order of the list as the order that both
-- threads see. That rests on the release and acquire orderings of the source, as does the reading
-- of a slot only after the index that publishes it.
--
-- Not modelled: the paper venue, reconciliation, the journal, the latency histogram and the rest of the
-- engine's wiring, components that the modelled ones only meet through the values above; parsing of
-- configuration and files, logging, metrics and printing, which are input and output; the Python
-- prototype, the notebooks and the monitoring, which are not part of the engine.
pub mod Base
pub mod Book
pub mod Double
pub mod Engine
pub mod FeedHealth
pub mod IdIndex
pub mod Instruments
pub mod Oms
pub mod Ring
pub mod Risk
pub mod Strategy
pub mod Types
