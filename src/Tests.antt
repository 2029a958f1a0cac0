-- ===== src/Tests.antt =====
-- Runs of the model on small inputs, and each theorem at an input that meets its hypotheses.
mod SegmentRuns
mod PartitionRuns
mod StoppedRuns
mod ConfigRuns
mod BrokerRuns
mod Links
mod SlowLinks
mod NetworkRuns
mod ToolRuns
