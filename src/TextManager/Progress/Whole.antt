-- ===== src/TextManager/Progress/Whole.antt =====
-- A whole call of copy.c: `copy`, its two threads in any order, and the files when it returns.
