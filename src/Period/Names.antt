-- ===== src/Period/Names.antt =====
-- BitcoinAnalysis/BlockFileName.h: the paths of the block files.
use Prim.Native.String.{String}
use bitcoin_analysis.Common.{List, [], ◌∷◌}

abbrev pub blkname : List String
blkname =
    "E:\\blocks\\blk00000.dat" ∷ "E:\\blocks\\blk00001.dat" ∷ "E:\\blocks\\blk00002.dat"
    ∷ "E:\\blocks\\blk00003.dat" ∷ "E:\\blocks\\blk00004.dat" ∷ "E:\\blocks\\blk00005.dat"
    ∷ "E:\\blocks\\blk00006.dat" ∷ "E:\\blocks\\blk00007.dat" ∷ "E:\\blocks\\blk00008.dat"
    ∷ "E:\\blocks\\blk00009.dat" ∷ "E:\\blocks\\blk00010.dat" ∷ "E:\\blocks\\blk00011.dat"
    ∷ "E:\\blocks\\blk00012.dat" ∷ "E:\\blocks\\blk00013.dat" ∷ "E:\\blocks\\blk00014.dat"
    ∷ "E:\\blocks\\blk00015.dat" ∷ "E:\\blocks\\blk00016.dat" ∷ "E:\\blocks\\blk00017.dat"
    ∷ "E:\\blocks\\blk00018.dat" ∷ "E:\\blocks\\blk00019.dat" ∷ "E:\\blocks\\blk00020.dat"
    ∷ "E:\\blocks\\blk00021.dat" ∷ "E:\\blocks\\blk00022.dat" ∷ "E:\\blocks\\blk00023.dat"
    ∷ "E:\\blocks\\blk00024.dat" ∷ "E:\\blocks\\blk00025.dat" ∷ "E:\\blocks\\blk00026.dat"
    ∷ "E:\\blocks\\blk00027.dat" ∷ "E:\\blocks\\blk00028.dat" ∷ "E:\\blocks\\blk00029.dat"
    ∷ "E:\\blocks\\blk00030.dat" ∷ "E:\\blocks\\blk00031.dat" ∷ "E:\\blocks\\blk00032.dat"
    ∷ "E:\\blocks\\blk00033.dat" ∷ "E:\\blocks\\blk00034.dat" ∷ "E:\\blocks\\blk00035.dat"
    ∷ "E:\\blocks\\blk00036.dat" ∷ "E:\\blocks\\blk00037.dat" ∷ "E:\\blocks\\blk00038.dat"
    ∷ "E:\\blocks\\blk00039.dat" ∷ "E:\\blocks\\blk00040.dat" ∷ "E:\\blocks\\blk00041.dat"
    ∷ "E:\\blocks\\blk00042.dat" ∷ "E:\\blocks\\blk00043.dat" ∷ "E:\\blocks\\blk00044.dat"
    ∷ "E:\\blocks\\blk00045.dat" ∷ "E:\\blocks\\blk00046.dat" ∷ "E:\\blocks\\blk00047.dat"
    ∷ "E:\\blocks\\blk00048.dat" ∷ "E:\\blocks\\blk00049.dat" ∷ "E:\\blocks\\blk00050.dat"
    ∷ "E:\\blocks\\blk00051.dat" ∷ "E:\\blocks\\blk00052.dat" ∷ "E:\\blocks\\blk00053.dat"
    ∷ "E:\\blocks\\blk00054.dat" ∷ "E:\\blocks\\blk00055.dat" ∷ "E:\\blocks\\blk00056.dat"
    ∷ "E:\\blocks\\blk00057.dat" ∷ "E:\\blocks\\blk00058.dat" ∷ "E:\\blocks\\blk00059.dat"
    ∷ "E:\\blocks\\blk00060.dat" ∷ "E:\\blocks\\blk00061.dat" ∷ "E:\\blocks\\blk00062.dat"
    ∷ "E:\\blocks\\blk00063.dat" ∷ "E:\\blocks\\blk00064.dat" ∷ "E:\\blocks\\blk00065.dat"
    ∷ "E:\\blocks\\blk00066.dat" ∷ "E:\\blocks\\blk00067.dat" ∷ "E:\\blocks\\blk00068.dat"
    ∷ "E:\\blocks\\blk00069.dat" ∷ "E:\\blocks\\blk00070.dat" ∷ "E:\\blocks\\blk00071.dat"
    ∷ "E:\\blocks\\blk00072.dat" ∷ "E:\\blocks\\blk00073.dat" ∷ "E:\\blocks\\blk00074.dat"
    ∷ "E:\\blocks\\blk00075.dat" ∷ "E:\\blocks\\blk00076.dat" ∷ "E:\\blocks\\blk00077.dat"
    ∷ "E:\\blocks\\blk00078.dat" ∷ "E:\\blocks\\blk00079.dat" ∷ "E:\\blocks\\blk00080.dat"
    ∷ "E:\\blocks\\blk00081.dat" ∷ "E:\\blocks\\blk00082.dat" ∷ "E:\\blocks\\blk00083.dat"
    ∷ "E:\\blocks\\blk00084.dat" ∷ "E:\\blocks\\blk00085.dat" ∷ "E:\\blocks\\blk00086.dat"
    ∷ "E:\\blocks\\blk00087.dat" ∷ "E:\\blocks\\blk00088.dat" ∷ "E:\\blocks\\blk00089.dat"
    ∷ "E:\\blocks\\blk00090.dat" ∷ "E:\\blocks\\blk00091.dat" ∷ "E:\\blocks\\blk00092.dat"
    ∷ "E:\\blocks\\blk00093.dat" ∷ "E:\\blocks\\blk00094.dat" ∷ "E:\\blocks\\blk00095.dat"
    ∷ "E:\\blocks\\blk00096.dat" ∷ "E:\\blocks\\blk00097.dat" ∷ "E:\\blocks\\blk00098.dat"
    ∷ "E:\\blocks\\blk00099.dat" ∷ "E:\\blocks\\blk00100.dat" ∷ "E:\\blocks\\blk00101.dat"
    ∷ "E:\\blocks\\blk00102.dat" ∷ "E:\\blocks\\blk00103.dat" ∷ "E:\\blocks\\blk00104.dat"
    ∷ "E:\\blocks\\blk00105.dat" ∷ "E:\\blocks\\blk00106.dat" ∷ "E:\\blocks\\blk00107.dat"
    ∷ "E:\\blocks\\blk00108.dat" ∷ "E:\\blocks\\blk00109.dat" ∷ "E:\\blocks\\blk00110.dat"
    ∷ "E:\\blocks\\blk00111.dat" ∷ "E:\\blocks\\blk00112.dat" ∷ "E:\\blocks\\blk00113.dat"
    ∷ "E:\\blocks\\blk00114.dat" ∷ "E:\\blocks\\blk00115.dat" ∷ "E:\\blocks\\blk00116.dat"
    ∷ "E:\\blocks\\blk00117.dat" ∷ "E:\\blocks\\blk00118.dat" ∷ "E:\\blocks\\blk00119.dat"
    ∷ "E:\\blocks\\blk00120.dat" ∷ "E:\\blocks\\blk00121.dat" ∷ "E:\\blocks\\blk00122.dat"
    ∷ "E:\\blocks\\blk00123.dat" ∷ "E:\\blocks\\blk00124.dat" ∷ "E:\\blocks\\blk00125.dat"
    ∷ "E:\\blocks\\blk00126.dat" ∷ "E:\\blocks\\blk00127.dat" ∷ "E:\\blocks\\blk00128.dat"
    ∷ "E:\\blocks\\blk00129.dat" ∷ "E:\\blocks\\blk00130.dat" ∷ "E:\\blocks\\blk00131.dat"
    ∷ "E:\\blocks\\blk00132.dat" ∷ "E:\\blocks\\blk00133.dat" ∷ "E:\\blocks\\blk00134.dat"
    ∷ "E:\\blocks\\blk00135.dat" ∷ "E:\\blocks\\blk00136.dat" ∷ "E:\\blocks\\blk00137.dat"
    ∷ "E:\\blocks\\blk00138.dat" ∷ "E:\\blocks\\blk00139.dat" ∷ "E:\\blocks\\blk00140.dat"
    ∷ "E:\\blocks\\blk00141.dat" ∷ "E:\\blocks\\blk00142.dat" ∷ "E:\\blocks\\blk00143.dat"
    ∷ "E:\\blocks\\blk00144.dat" ∷ "E:\\blocks\\blk00145.dat" ∷ "E:\\blocks\\blk00146.dat"
    ∷ "E:\\blocks\\blk00147.dat" ∷ "E:\\blocks\\blk00148.dat" ∷ "E:\\blocks\\blk00149.dat"
    ∷ "E:\\blocks\\blk00150.dat" ∷ "E:\\blocks\\blk00151.dat" ∷ "E:\\blocks\\blk00152.dat"
    ∷ "E:\\blocks\\blk00153.dat" ∷ "E:\\blocks\\blk00154.dat" ∷ "E:\\blocks\\blk00155.dat"
    ∷ "E:\\blocks\\blk00156.dat" ∷ "E:\\blocks\\blk00157.dat" ∷ "E:\\blocks\\blk00158.dat"
    ∷ "E:\\blocks\\blk00159.dat" ∷ "E:\\blocks\\blk00160.dat" ∷ "E:\\blocks\\blk00161.dat"
    ∷ "E:\\blocks\\blk00162.dat" ∷ "E:\\blocks\\blk00163.dat" ∷ "E:\\blocks\\blk00164.dat"
    ∷ "E:\\blocks\\blk00165.dat" ∷ "E:\\blocks\\blk00166.dat" ∷ "E:\\blocks\\blk00167.dat"
    ∷ "E:\\blocks\\blk00168.dat" ∷ "E:\\blocks\\blk00169.dat" ∷ "E:\\blocks\\blk00170.dat"
    ∷ "E:\\blocks\\blk00171.dat" ∷ "E:\\blocks\\blk00172.dat" ∷ "E:\\blocks\\blk00173.dat"
    ∷ "E:\\blocks\\blk00174.dat" ∷ "E:\\blocks\\blk00175.dat" ∷ "E:\\blocks\\blk00176.dat"
    ∷ "E:\\blocks\\blk00177.dat" ∷ "E:\\blocks\\blk00178.dat" ∷ "E:\\blocks\\blk00179.dat"
    ∷ "E:\\blocks\\blk00180.dat" ∷ "E:\\blocks\\blk00181.dat" ∷ "E:\\blocks\\blk00182.dat"
    ∷ "E:\\blocks\\blk00183.dat" ∷ "E:\\blocks\\blk00184.dat" ∷ "E:\\blocks\\blk00185.dat"
    ∷ "E:\\blocks\\blk00186.dat" ∷ "E:\\blocks\\blk00187.dat" ∷ "E:\\blocks\\blk00188.dat"
    ∷ "E:\\blocks\\blk00189.dat" ∷ "E:\\blocks\\blk00190.dat" ∷ "E:\\blocks\\blk00191.dat"
    ∷ "E:\\blocks\\blk00192.dat" ∷ "E:\\blocks\\blk00193.dat" ∷ "E:\\blocks\\blk00194.dat"
    ∷ "E:\\blocks\\blk00195.dat" ∷ "E:\\blocks\\blk00196.dat" ∷ "E:\\blocks\\blk00197.dat"
    ∷ "E:\\blocks\\blk00198.dat" ∷ "E:\\blocks\\blk00199.dat" ∷ "E:\\blocks\\blk00200.dat"
    ∷ "E:\\blocks\\blk00201.dat" ∷ "E:\\blocks\\blk00202.dat" ∷ "E:\\blocks\\blk00203.dat"
    ∷ "E:\\blocks\\blk00204.dat" ∷ "E:\\blocks\\blk00205.dat" ∷ "E:\\blocks\\blk00206.dat"
    ∷ "E:\\blocks\\blk00207.dat" ∷ "E:\\blocks\\blk00208.dat" ∷ "E:\\blocks\\blk00209.dat"
    ∷ "E:\\blocks\\blk00210.dat" ∷ "E:\\blocks\\blk00211.dat" ∷ "E:\\blocks\\blk00212.dat"
    ∷ "E:\\blocks\\blk00213.dat" ∷ "E:\\blocks\\blk00214.dat" ∷ "E:\\blocks\\blk00215.dat"
    ∷ "E:\\blocks\\blk00216.dat" ∷ "E:\\blocks\\blk00217.dat" ∷ "E:\\blocks\\blk00218.dat"
    ∷ "E:\\blocks\\blk00219.dat" ∷ "E:\\blocks\\blk00220.dat" ∷ "E:\\blocks\\blk00221.dat"
    ∷ "E:\\blocks\\blk00222.dat" ∷ "E:\\blocks\\blk00223.dat" ∷ "E:\\blocks\\blk00224.dat"
    ∷ "E:\\blocks\\blk00225.dat" ∷ "E:\\blocks\\blk00226.dat" ∷ "E:\\blocks\\blk00227.dat"
    ∷ "E:\\blocks\\blk00228.dat" ∷ "E:\\blocks\\blk00229.dat" ∷ "E:\\blocks\\blk00230.dat"
    ∷ "E:\\blocks\\blk00231.dat" ∷ "E:\\blocks\\blk00232.dat" ∷ "E:\\blocks\\blk00233.dat"
    ∷ "E:\\blocks\\blk00234.dat" ∷ "E:\\blocks\\blk00235.dat" ∷ "E:\\blocks\\blk00236.dat" ∷ []
