-- ===== src/Tests.antt =====
-- Concrete runs of the parts, and the theorems at concrete inputs.
pub mod ChannelRuns
pub mod TaskRuns
pub mod WaitingRuns
pub mod BacktraceRuns
pub mod BasicRuns
pub mod DispatchRuns
pub mod ElasticRuns
pub mod HelperRuns
pub mod KeeperRuns
pub mod PoolRuns
pub mod SchedulerRuns
pub mod ServerRuns
pub mod InboxRuns
pub mod LoggerRuns
pub mod NetworkRuns
pub mod NodeRuns
pub mod StreamRuns
pub mod SenderRuns
pub mod HandleRuns
pub mod ThreadRuns
pub mod CrewRuns
pub mod EndToEndRuns
pub mod ExecutorRuns
