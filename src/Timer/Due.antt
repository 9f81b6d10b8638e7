-- ===== src/Timer/Due.antt =====
-- About the loop of `onTimer`: how many rounds it takes, and what it leaves.
