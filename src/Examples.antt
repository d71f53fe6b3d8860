-- ===== src/Examples.antt =====
-- Concrete runs of the models: each theorem with hypotheses at an input where they hold.
mod Film
mod Ftp
mod Manager
mod Flash
mod Fixtures
mod Clock
mod Ticking
mod Store
mod Text
mod Listings
