-- ===== src/Tests.antt =====
-- Small runs of the model: a server that holds one object of each kind, and the theorems at it.
mod Retry
mod Server
mod Text
mod Reconciling
mod Keeping
mod Granting
mod Pairing
mod Labelling
mod Generating
mod Applying
mod Log
mod Store
mod Histories
mod Copying
mod CopyingOlder
mod Counting
mod Relabelling
mod Restoring
mod Authorizing
mod Starting
mod Revoking
mod Quotas
mod Replicated
