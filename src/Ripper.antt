-- ===== src/Ripper.antt =====
-- arm/ripper/utils.py: what a rip waits for, and the phases of the rip of an audio disc.
pub mod Wait
pub mod Music
pub mod Folder
mod Examples
