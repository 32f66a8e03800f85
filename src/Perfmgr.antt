-- ===== src/Perfmgr.antt =====
-- power-libperfmgr/aidl: the power HAL's hint sessions and their manager (votes, records, task map),
-- interaction boosts, channels and frame metrics.
pub mod Votes
pub mod SessionRecords
pub mod SessionTaskMap
pub mod InteractionHandler
pub mod ChannelGroup
pub mod ChannelManager
pub mod SessionMetrics
pub mod PowerHintSession
pub mod GpuCapacity
pub mod PowerSessionManager
pub mod BackgroundWorker
