-- ===== src/Tests.antt =====
-- Runs of the code on small inputs, and each theorem at an input that meets its hypotheses.
mod PipelineLayout
mod Balanced
mod PipelineSchedule
mod Global
mod PipelineParallel
mod Partition
mod DataLoader
mod PipelineStage
mod Reducer
mod ParamAndGradBuffer
mod BucketGroup
