-- ===== src/Bot/Blocks.antt =====
-- About the blocks of the last updates, of the users and of the comptroller's parameters, through every
-- callback of compound.py.
pub mod Parts
pub mod Synced
pub mod Updates
pub mod Kept
pub mod Rounds
pub mod Forward
