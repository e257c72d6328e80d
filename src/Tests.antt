-- ===== src/Tests.antt =====
-- Runs of the model against an API that is held in memory, and the applications of the theorems.
mod World
mod Pure
mod Controller
mod Attachment
mod Node
mod Calls
mod Server
mod Concurrent
mod Mounter
