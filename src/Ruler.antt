-- ===== src/Ruler.antt =====
-- tools/wr-dio-ruler.c, which fires pulses here and on other machines when an input sees an event, and
-- tools/wr-dio-agent.c, which takes its frames there.
pub mod Actions
pub mod Tool
pub mod Agent
pub mod Times
pub mod Run
pub mod Delivery
pub mod Network
mod Tests
