-- ===== src/Queue/Fetch/Selection.antt =====
-- Which rows the query for messages to deliver selects.
