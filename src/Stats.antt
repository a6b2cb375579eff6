-- ===== src/Stats.antt =====
-- The packages stats and stats/view: views, the samples they collect, and the worker that serves
-- the commands.
pub mod Aggregation
pub mod AggregationData
pub mod Measures
pub mod Recording
pub mod Collector
pub mod Views
pub mod ViewToMetric
pub mod Worker
mod Examples
