-- ===== src/Tests.antt =====
-- Each theorem with hypotheses, applied to an input that meets them.
mod Hash
mod SnipsExamples
mod ProtocolExamples
mod RoundExamples
mod RadiusExamples
mod SwarmExamples
mod PeerExamples
mod PosExamples
mod ShardExamples
mod StampExamples
mod BatchExamples
mod KademliaExamples
mod IntervalExamples
