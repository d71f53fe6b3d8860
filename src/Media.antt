-- ===== src/Media.antt =====
-- sources/components/nn20clock_media: names, paths and listings of the card's media.
-- Strings are lists of bytes without the terminator, and no pointer is NULL: each function here
-- answers a NULL at once with its refusal. A `char` is compared as the unsigned byte that it is on
-- the target.
pub mod Names
pub mod Paths
pub mod Resolve
pub mod Listing
pub mod Openers
