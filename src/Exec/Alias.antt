-- ===== src/Exec/Alias.antt =====
-- What the check for reserved addresses misses: Sv39 reads 39 bits of an address.
