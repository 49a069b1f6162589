-- ===== src/Volume.antt =====
-- What the client keeps of a volume: which of its blocks have been written before.
pub mod Ovw
mod Examples
