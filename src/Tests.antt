-- ===== src/Tests.antt =====
-- Runs of the model at concrete inputs, and the theorems applied to them.
mod Waker
mod Oneshot
mod ArrayQueue
mod WaitGroup
mod Registry
mod Backoff
mod ArrayQueueSpsc
mod ArrayQueueMpsc
mod One
mod OneMpsc
mod Multiplex
mod MultiplexPark
mod Select
mod Handles
mod Flavor
mod Channel
