-- ===== src/Lib.antt =====
-- A verification of the planning code of InfiniTrain's distributed training: how the layers of a
-- model are laid out on pipeline stages, in which order micro-batches run through them, how the
-- samples are shared, and how ranks are numbered along the data-, tensor- and pipeline-parallel
-- axes.
--
-- The program's parts, and the files that model them (paths from the repository's root):
--   infini_train/src/nn/parallel/pipeline_layout.cc, with its header
--     PipelineLayout.antt            the data types; `PipelineLayoutError` is a type of messages
--     PipelineLayout/Check.antt      `PipelineLayout::Validate`
--     PipelineLayout/Valid.antt      what a valid layout is, without the loops of `Validate`
--     PipelineLayout/Indexes.antt    `BuildIndexes`, the queries, the check for the transport
--     PipelineLayout/Builders.antt   `BuildDefault`, `BuildContiguous` and the constructors
--     PipelineLayout/Partition.antt  `ParseLayerPartition` and `BuildPipelineLayout`
--     PipelineLayout/Balanced.antt   `SuggestBalancedPartition`, over any type of costs
--   infini_train/src/nn/parallel/pp/pipeline_schedule.cc, with its header
--     PipelineSchedule.antt          `CreateTask`, `GenerateGPipeSchedule` and
--                                    `GenerateInterleaved1F1BSchedule`
--   infini_train/src/nn/parallel/pp/pipeline_parallel.cc, with its header
--     PipelineParallel.antt          `GetStageInfo`
--   infini_train/src/nn/parallel/pp/pipeline_stage.cc
--     PipelineStage.antt             the constructor, and the peers of a stage in
--                                    `PipelineSchedule::StepMicroBatches`
--   infini_train/src/nn/parallel/global.cc, with its header
--     Global.antt                    `Layout`: ranks, coordinates, groups
--     Global/Env.antt                `GlobalEnv::Init`, and the getters with a rule of their own
--   infini_train/src/nn/parallel/ddp/reducer.cc, with its header
--     Reducer.antt                   the state of the reducer, and what it asks of the devices
--     Reducer/Assignment.antt        `ComputeBucketAssignmentBySize`
--     Reducer/Buckets.antt           `BuildBuckets`, with its callers
--     Reducer/Backward.antt          the handlers of a backward pass
--     Reducer/FirstPass.antt         these together, as `DistributedDataParallel` calls them
--   infini_train/src/nn/parallel/ddp/param_and_grad_buffer.cc, with its header
--     ParamAndGradBuffer.antt        `BuildBuckets`: where the parameters and the buckets are
--     ParamAndGradBuffer/Buckets.antt  `BuildBuckets`: the buckets
--     BucketGroup.antt               the state of a bucket group
--     BucketGroup/Gradients.antt     the collection and the reduction of gradients
--     BucketGroup/Parameters.antt    the gather of parameters
--   infini_train/include/datatype.h, infini_train/include/device.h
--     Tensors.antt                   what the planning code reads of a tensor
--   infini_train/src/dataloader.cc
--     DataLoader.antt                the iterators, and the loop of a caller
-- The children of each of these files hold the proofs. Base.antt has what they share: lists,
-- results, integers, the stable sort, and counted loops. Tests.antt runs the code on small inputs.
--
-- How they interact: a builder of `PipelineLayout` makes chunks, the private constructor
-- validates and indexes them, the scheduler asks the layout for each chunk id, and the layout of
-- ranks is set up by `GlobalEnv::Init` from the sizes that the command line gives.
--
-- Names are the source's, in lower case with underscores. An exception, and a CHECK that aborts,
-- is an error value; an `int` that the code has tested not to be negative is a natural number, and
-- one that it tests is an integer. `Validate` reads the chunks' fields as integers, and what runs
-- after it reads them as natural numbers. A loop with a counter is a recursion on the number of
-- rounds left. The loop over the data loader's iterators alone is on fuel; it takes the number of batches,
-- which is enough as each round moves on by a batch at least. Sums and products that the source
-- computes in `int` are not bounded here, but for the test of `BuildDefault` against the largest
-- `int`.
--
-- A pass of the reducer is the sequence of its locked calls; its copies, its all-reduces and the
-- waits for them are a list of events. A size in bytes wraps around at 2 ^ 64; a number of elements
-- does not.
--
-- A parameter of the flat buffer is its place in the list, and its pointer is the key of the
-- buffer's maps. The data loader's `int idx` is narrowed from a `size_t` as in the source.
--
-- `std::sort` leaves the order of equal elements open; the model sorts stably. On a valid layout
-- without empty chunks the sort by start has no ties. The schedule's ties are tasks of one step and
-- one local chunk.
--
-- Not modelled: the transfer of tensors, the collectives, and the numerical code, which are calls
-- of device libraries; the printing of layouts and schedules; the parser of Megatron-style layout
-- expressions.
pub mod Base
pub mod PipelineLayout
pub mod PipelineSchedule
pub mod PipelineParallel
pub mod PipelineStage
pub mod DataLoader
pub mod Reducer
pub mod ParamAndGradBuffer
pub mod BucketGroup
pub mod Tensors
pub mod Global
mod Tests
