-- ===== src/Network.antt =====
-- The crate elfo-network.
pub mod FlowControl
pub mod Codec
pub mod TxFlows
pub mod RxFlows
pub mod OutgoingRequests
mod RequestExamples
pub mod ReadBuffer
pub mod Worker
pub mod Frame
pub mod ConnMan
mod FrameExamples
mod WorkerExamples
mod ConnExamples
mod FlowExamples
mod Examples
